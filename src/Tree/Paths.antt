-- ===== src/Tree/Paths.antt =====
-- The paths that angry-gopher builds, as droplet/check_volume_tree.py lists them, and what it says of a
-- finding at one.
use gopher_metal.Prelude.{
  ℕ, Bool, true, false, not, ◌&&◌, ◌||◌, List, [], ◌∷◌, Option, none, some, ltb, leb, ◌==◌,
  if◌then◌else◌,
}
use Prim.Native.String.{String}
use gopher_metal.Prelude.Text.{Text, codes}
use gopher_metal.Prelude.Regex.{
  Regex, one, seq, alt, star, fullmatch, literal, maybe, plus, times, up_to, any_of, all_of,
}
use gopher_metal.Tree.Names.{is_upper, is_digit}

-- What the application uses a path for.
pub data Use : Type 0 where
  transcript uploads conversation channel_record user_doc chat_state links_page : Use
  session_secret old_secret user_record player player_counter unsigned_window games : Use
  account account_counter kept_root : Use

pub data Rule : Type 0 where
  directory_full case_collision not_the_apps symlink special_file forbidden_character : Rule
  trailing_dot_or_space non_ascii long_name long_path deep date too_big hard_link volume_full : Rule

-- What `app_says` says.
pub data Says : Type 0 where
  not_built : Says
  long_yes case_yes cannot : Use → Says

-- a row of APP_PATHS: the use, whether it allows long names, whether it allows collisions
pub record AppPath : Type 0 where
  pub pattern : Regex
  pub what : Use
  pub long_ok : Bool
  pub case_ok : Bool

abbrev is_lower : ℕ → Bool
is_lower c = leb b'a' c && leb c b'z'

abbrev is_alpha : ℕ → Bool
is_alpha c = is_upper c || is_lower c

abbrev is_alnum : ℕ → Bool
is_alnum c = is_alpha c || is_digit c

abbrev lit : String → Regex
lit s = literal (codes s)

digits : Regex
digits = plus (one is_digit)

-- SID
sid : Regex
sid = seq (plus (one is_alnum)) (star (seq (lit "-") (plus (one is_alnum))))

-- CHANNEL
channel : Regex
channel = seq (one is_alpha) (up_to 39 (one (λ c. is_alnum c || c == b'-')))

-- SLUG
slug : Regex
slug =
    seq (plus (one (λ c. is_lower c || is_digit c)))
      (star (seq (lit "-") (plus (one (λ c. is_lower c || is_digit c)))))

-- CONV
conv : Regex
conv = all_of (digits ∷ lit "_" ∷ digits ∷ [])

-- ID
id : Regex
id = seq (maybe (lit "p")) digits

-- SESSION_FILE
session_file : Regex
session_file = all_of (
    sid
    ∷ lit "."
    ∷ any_of (lit "md" ∷ lit "count" ∷ lit "lastauthor" ∷ lit "reactions.jsonl" ∷ [])
    ∷ [])

abbrev row : List Regex → Use → Bool → Bool → AppPath
row parts what long_ok case_ok = record {
  pattern = all_of parts;
  what = what;
  long_ok = long_ok;
  case_ok = case_ok;
}

-- data/chat/(?:{CONV}|channels/{CHANNEL})
in_chat : Regex
in_chat = seq (lit "data/chat/") (alt conv (seq (lit "channels/") channel))

in_users : Regex
in_users = seq (lit "data/chat/users/") id

previous : Regex
previous = maybe (seq (lit ".previous") (maybe (lit "-until")))

-- APP_PATHS
unfoldable pub app_paths : List AppPath
unfolding digits sid channel slug conv id session_file in_chat in_users previous
app_paths =
    row (in_chat ∷ lit "/sessions/" ∷ session_file ∷ []) transcript true true
    ∷ row
        (in_chat
          ∷ lit "/sessions/"
          ∷ sid
          ∷ lit ".uploads"
          ∷ maybe (
              all_of (
                lit "/"
                ∷ times 32 (one (λ c. is_digit c || (leb b'a' c && leb c b'f')))
                ∷ lit "."
                ∷ plus (one is_alnum)
                ∷ []))
          ∷ [])
        uploads true true
    ∷ row (in_chat ∷ maybe (lit "/sessions") ∷ []) conversation false true
    ∷ row (lit "data/chat/channels/" ∷ channel ∷ lit ".channel" ∷ []) channel_record false true
    ∷ row (in_users ∷ lit "/docs/" ∷ slug ∷ lit ".md" ∷ []) user_doc true false
    ∷ row
        (in_users
          ∷ maybe (any_of (lit "/docs" ∷ lit "/last-sessions" ∷ lit "/pinned-sessions" ∷ []))
          ∷ [])
        chat_state false false
    ∷ row
        (in_users ∷ lit "/" ∷ any_of (lit "code.md" ∷ lit "images.md" ∷ lit "last-conv" ∷ []) ∷ [])
        chat_state false false
    ∷ row (in_users ∷ lit "/links.md" ∷ []) links_page false false
    ∷ row
        (in_users
          ∷ lit "/"
          ∷ alt (lit "last") (lit "pinned")
          ∷ lit "-sessions/"
          ∷ alt conv channel
          ∷ [])
        chat_state false true
    ∷ row (lit "auth/_session_secret" ∷ previous ∷ []) session_secret false false
    ∷ row (lit "data/chat/_session_secret" ∷ previous ∷ []) old_secret false false
    ∷ row
        (lit "data/users/"
          ∷ id
          ∷ maybe (any_of (lit "/last-seen" ∷ lit "/upload-bytes" ∷ lit "/admin" ∷ []))
          ∷ [])
        user_record false false
    ∷ row
        (lit "data/players/"
          ∷ id
          ∷ maybe (any_of (lit "/name" ∷ lit "/last-seen" ∷ lit "/signed" ∷ []))
          ∷ [])
        player false false
    ∷ row (lit "data/players/next-id.txt" ∷ []) player_counter false false
    ∷ row (lit "data/players/unsigned-window" ∷ []) unsigned_window false false
    ∷ row (lit "data/lynrummy" ∷ maybe (seq (lit "/") (star (one (λ c. not (c == 10))))) ∷ []) games
        false false
    ∷ row
        (lit "auth/"
          ∷ id
          ∷ maybe (seq (lit "/") (plus (one (λ c. is_lower c || c == b'_' || c == b'-'))))
          ∷ [])
        account false false
    ∷ row (lit "auth/next-id.txt" ∷ []) account_counter false false
    ∷ row
        (any_of (
            lit "data"
            ∷ lit "auth"
            ∷ lit "data/chat"
            ∷ lit "data/chat/channels"
            ∷ lit "data/chat/users"
            ∷ lit "data/users"
            ∷ lit "data/players"
            ∷ [])
          ∷ [])
        kept_root false false
    ∷ []

pub first_match : Text → List AppPath → Option AppPath
first_match rel [] = none
first_match rel (p ∷ ps) = if fullmatch p.pattern rel then some p else first_match rel ps

-- `app_kind`
unfoldable pub app_kind : Text → Option AppPath
unfolding first_match
app_kind rel = first_match rel app_paths

abbrev pub is_long : Rule → Bool
is_long long_name = true
is_long _ = false

abbrev pub is_collision : Rule → Bool
is_collision case_collision = true
is_collision _ = false

abbrev pub max_name : ℕ
max_name = 96

abbrev app_longest_name : ℕ
app_longest_name = 96

says_of : Option AppPath → Rule → Says
says_of none rule = not_built
says_of (some p) rule =
    if is_long rule && p.long_ok && ltb max_name app_longest_name
    then long_yes p.what
    else if is_collision rule && p.case_ok
    then case_yes p.what
    else cannot p.what

-- `app_says`
pub app_says : Text → Rule → Says
unfolding says_of
app_says rel rule = says_of (app_kind rel) rule

-- ===== src/Verdicts.antt =====
-- tools/verdicts.py: which code was judged, what the judges said, and whether an image may be built.
-- The trees and the directories are a value, as git and the file system answer for them; what `record`
-- writes is passed on.
pub mod Texts
pub mod Content
pub mod Allowed
pub mod Records
mod Tests
use gopher_metal.Prelude.Text.{Text, text_eq, starts_with, ends_with}
use gopher_metal.Prelude.{
  ℕ, Bool, true, false, not, ◌&&◌, ◌||◌, List, [], ◌∷◌, ◌++◌, Option, none, some, ◌==◌, ltb, leb,
  if◌then◌else◌,
}
use gopher_metal.Verdicts.Texts.{dirty, sdk_mark, split_mark, first_word, has_word}

-- ROOT, SDK, GOPHER_ROOT and WEBBOX_ROOT
pub data Repo : Type 0 where
  root sdk gopher webbox : Repo

-- What git and the file system say: HEAD, and the status of the tracked files under paths, empty where
-- nothing differs; whether the source directories are there; their files, each with whether it aliases
-- std's Io; the site's directories, where the assets file reads; and `content_id()`.
pub record World : Type 0 where
  pub head : Repo → Text
  pub status : Repo → List Text → Text
  pub has_src : Bool
  pub has_webbox : Bool
  pub src_files : List (Text × Bool)
  pub webbox_files : List (Text × Bool)
  pub served : Option (List Text)
  pub content : Text

abbrev pub is_empty : Text → Bool
is_empty [] = true
is_empty (c ∷ cs) = false

-- `commit_of`
pub commit_of : World → Repo → List Text → Text
commit_of w r paths = w.head r ++ (if is_empty (w.status r paths) then [] else dirty)

-- `ours_id`
pub ours_id : World → Text
unfolding commit_of
ours_id w = commit_of w root [] ++ (sdk_mark ++ commit_of w sdk [])

pub data Freshness : Type 0 where
  fresh no_sources no_webbox_sources assets_unread : Freshness
  aliases : List Text → Freshness

abbrev zig_end : Text
zig_end = b'.' ∷ b'z' ∷ b'i' ∷ b'g' ∷ []

abbrev std_host : Text
std_host =
    b'h' ∷ b'o' ∷ b's' ∷ b't' ∷ b'_' ∷ b'i' ∷ b'o' ∷ b'_' ∷ b's' ∷ b't' ∷ b'd' ∷ b'.' ∷ b'z' ∷ b'i'
    ∷ b'g' ∷ []

-- the loop over a directory's files
pub escaped : List (Text × Bool) → List Text
escaped [] = []
escaped ((name, alias) ∷ files) =
    let rest = escaped files in
    if ends_with zig_end name && not (text_eq name std_host) && alias then name ∷ rest else rest

served_fresh : Option (List Text) → Freshness
served_fresh none = assets_unread
served_fresh (some dirs) = fresh

escaped_fresh : List Text → Option (List Text) → Freshness
unfolding served_fresh
escaped_fresh [] served = served_fresh served
escaped_fresh (n ∷ ns) served = aliases (n ∷ ns)

-- `freshness`
pub freshness : World → Freshness
unfolding escaped escaped_fresh
freshness w =
    if not w.has_src
    then no_sources
    else if not w.has_webbox
    then no_webbox_sources
    else escaped_fresh (escaped w.src_files ++ escaped w.webbox_files) w.served

-- what `current_pair` gives beside `ours`
pub data Theirs : Type 0 where
  theirs : Text → Theirs
  problem : Freshness → Theirs

pub theirs_of : Text → Freshness → Theirs
theirs_of content fresh = theirs content
theirs_of content why = problem why

-- `current_pair`
pub current_pair : World → Text × Theirs
unfolding ours_id freshness theirs_of
current_pair w = (ours_id w, theirs_of w.content (freshness w))

abbrev pub gates : Text
gates = b'g' ∷ b'a' ∷ b't' ∷ b'e' ∷ b's' ∷ []

abbrev pub long : Text
long = b'l' ∷ b'o' ∷ b'n' ∷ b'g' ∷ []

abbrev pub pass : Text
pass = b'P' ∷ b'A' ∷ b'S' ∷ b'S' ∷ []

abbrev fail : Text
fail = b'F' ∷ b'A' ∷ b'I' ∷ b'L' ∷ []

-- the name that `verdict_path` gives a file of VERDICT_DIR
abbrev pub verdict_name : Text → Text → Text → Text
verdict_name tier ours id = tier ++ (b'-' ∷ (ours ++ (b'-' ∷ id)))

abbrev pub pair_text : Text → Text → Text
pair_text ours id = ours ++ (b' ' ∷ id)

-- the files of VERDICT_DIR
pub read_file : Text → List (Text × Text) → Option Text
read_file name [] = none
read_file name ((n, text) ∷ files) = if text_eq n name then some text else read_file name files

pub write_file : Text → Text → List (Text × Text) → List (Text × Text)
write_file name text files = (name, text) ∷ files

record_pair :
    Text → Text → Text → Text → Text × Theirs → List (Text × Text) → ℕ × List (Text × Text)
unfolding write_file
record_pair started now tier outcome (ours, problem why) files = (2, files)
record_pair started now tier outcome (ours, theirs id) files =
    if not (text_eq started (pair_text ours id))
    then (2, files)
    else (0, write_file (verdict_name tier ours id) (outcome ++ (b' ' ∷ (now ++ (10 ∷ [])))) files)

-- `record`, with SKIP and VERDICT_PAIR of the environment and the time as text: its status, and the files
unfoldable pub record_verdict :
    World → Text → Text → Text → Text → Text → List (Text × Text) → ℕ × List (Text × Text)
unfolding record_pair current_pair
record_verdict w skip started now tier outcome files =
    let kept = record_pair started now tier outcome (current_pair w) files in
    if not (text_eq tier gates || text_eq tier long)
      || not (text_eq outcome pass || text_eq outcome fail)
    then (2, files)
    else if has_word skip
    then (2, files)
    else kept

-- a line of `require`
pub data Why : Type 0 where
  stale : Freshness → Why
  root_dirty sdk_dirty gopher_dirty webbox_dirty : Why
  no_verdict said_other : Text → Why

abbrev why_if : Bool → Why → List Why
why_if test why = if test then why ∷ [] else []

-- `f.read().split()`, of which the first word decides
tier_said : Text → Option Text → List Why
tier_said tier none = no_verdict tier ∷ []
tier_said tier (some said) = if text_eq said pass then [] else said_other tier ∷ []

tier_file : Text → Option Text → List Why
unfolding tier_said
tier_file tier none = no_verdict tier ∷ []
tier_file tier (some text) = tier_said tier (first_word text)

or_none : Option (List Text) → List Text
or_none none = []
or_none (some dirs) = dirs

abbrev server_src : Text
server_src =
    b'z' ∷ b'i' ∷ b'g' ∷ b'-' ∷ b's' ∷ b'e' ∷ b'r' ∷ b'v' ∷ b'e' ∷ b'r' ∷ b'/' ∷ b's' ∷ b'r' ∷ b'c'
    ∷ []

-- `*served_dirs(), ASSETS`, the latter's name being `assets`
pub served_paths : Text → World → List Text
unfolding or_none
served_paths assets w = server_src ∷ (or_none w.served ++ assets ∷ [])

module _ (assets : Text) (webbox_built : List Text) where
  require_pair : World → List (Text × Text) → Text × Theirs → List Why
  unfolding tier_file read_file served_paths
  require_pair w files (ours, problem why) = stale why ∷ []
  require_pair w files (ours, theirs id) =
      let (here, there) = split_mark sdk_mark ours in
      why_if (ends_with dirty here) root_dirty
      ++ (why_if (ends_with dirty there) sdk_dirty
          ++ (why_if (not (is_empty (w.status gopher (served_paths assets w)))) gopher_dirty
              ++ (why_if (not (is_empty (w.status webbox webbox_built))) webbox_dirty
                  ++ (tier_file gates (read_file (verdict_name gates ours id) files)
                      ++ tier_file long (read_file (verdict_name long ours id) files)))))

  -- `require`
  unfoldable pub require : World → List (Text × Text) → List Why
  unfolding require_pair current_pair
  require w files = require_pair w files (current_pair w)

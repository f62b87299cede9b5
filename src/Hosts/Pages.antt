-- ===== src/Hosts/Pages.antt =====
-- `pages`: what there is to compare, from the folders of a copy.
use gopher_metal.Prelude.{
  ℕ, zero, suc, ◌-◌, Bool, not, ◌&&◌, List, [], ◌∷◌, ◌++◌, length, ◌==◌, if◌then◌else◌,
}
use gopher_metal.Prelude.Text.{Text, codes, text_in, ends_with}
use gopher_metal.Prelude.Decimal.{decimal}

-- a label, which holds no name from the data, and a path
abbrev pub Page : Type 0
Page = Text × Text

-- the copy: os.path.isdir, os.listdir, sorted and urllib.parse.quote
pub record Copied : Type 0 where
  pub isdir : Text → Bool
  pub listdir : Text → List Text
  pub sorted : List Text → List Text
  pub quote : Text → Text

-- os.path.join
infixr 40 ◌/+◌
abbrev pub ◌/+◌ : Text → Text → Text
a /+ b = a ++ (codes "/" ++ b)

unfoldable pub take : ℕ → Text → Text
take zero t = []
take (suc n) [] = []
take (suc n) (c ∷ cs) = c ∷ take n cs

-- f[:-3] for the names that end with .md
unfoldable pub stems : List Text → List Text
unfolding take
stems [] = []
stems (f ∷ fs) =
    let rest = stems fs in if ends_with (codes ".md") f then take (length f - 3) f ∷ rest else rest

unfoldable pub upload_pages : (Text → Text) → Text → Text → ℕ → List Text → List Page
upload_pages quote label url u [] = []
upload_pages quote label url u (name ∷ names) =
    (label ++ (codes ", upload " ++ decimal u), url ++ (codes "/uploads/" ++ quote name))
    ∷ upload_pages quote label url (suc u) names

-- one topic
unfoldable pub topic : Copied → Text → Text → Text → Text → List Page
unfolding upload_pages
topic copied sessions base label sid =
    let url = base ++ (codes "/" ++ copied.quote sid) in
    let up = sessions /+ (sid ++ codes ".uploads") in
    (label, url)
    ∷ (label ++ codes ", raw", url ++ codes "/raw")
    ∷ (label ++ codes ", reactions", url ++ codes "/reactions")
    ∷ (if copied.isdir up
        then upload_pages copied.quote label url 1 (copied.sorted (copied.listdir up))
        else [])

-- for t, sid in enumerate(sids, 1)
unfoldable pub each_topic : Copied → Text → ℕ → Text → Text → ℕ → List Text → List Page
unfolding topic
each_topic copied kind n sessions base t [] = []
each_topic copied kind n sessions base t (sid ∷ sids) =
    topic copied sessions base
      (kind ++ (codes " " ++ (decimal n ++ (codes ", topic " ++ decimal t)))) sid
    ++ each_topic copied kind n sessions base (suc t) sids

unfoldable pub topics : Copied → Text → ℕ → Text → Text → List Page
unfolding each_topic stems
topics copied kind n conv_dir base =
    let sessions = conv_dir /+ codes "sessions" in
    if not (copied.isdir sessions)
    then []
    else each_topic copied kind n sessions base 1 (copied.sorted (stems (copied.listdir sessions)))

cut_on : ℕ → List Text → List Text
cut_on c [] = (c ∷ []) ∷ []
cut_on c (part ∷ parts) = (c ∷ part) ∷ parts

-- d.split("_")
unfoldable pub split_name : Text → List Text
unfolding cut_on
split_name [] = [] ∷ []
split_name (c ∷ cs) = let rest = split_name cs in if c == b'_' then [] ∷ rest else cut_on c rest

-- A conversation of the user: `"_" in d` is that the name has more than one part.
unfoldable pub is_dm : Copied → Text → Text → Text → Bool
unfolding split_name
is_dm copied chat uid d =
    not (length (split_name d) == 1) && text_in uid (split_name d) && copied.isdir (chat /+ d)

unfoldable pub keep : (Text → Bool) → List Text → List Text
keep test [] = []
keep test (d ∷ ds) = let rest = keep test ds in if test d then d ∷ rest else rest

-- a folder of topics for each name, at `base` with the name
unfoldable pub each_folder : Copied → Text → ℕ → Text → Text → List Text → List Page
unfolding topics
each_folder copied kind n dir base [] = []
each_folder copied kind n dir base (name ∷ names) =
    topics copied kind n (dir /+ name) (base ++ copied.quote name)
    ++ each_folder copied kind (suc n) dir base names

unfoldable pub doc_pages : Copied → ℕ → List Text → List Page
doc_pages copied n [] = []
doc_pages copied n (stem ∷ rest) =
    (codes "doc " ++ decimal n, codes "/chat/docs/" ++ copied.quote stem)
    ∷ doc_pages copied (suc n) rest

unfoldable pub fixed : List Page
fixed =
    (codes "recent", codes "/chat/recent")
    ∷ (codes "docs list", codes "/chat/docs/list")
    ∷ (codes "links", codes "/chat/links")
    ∷ (codes "images", codes "/chat/images")
    ∷ (codes "code", codes "/chat/code")
    ∷ (codes "conversations", codes "/chat/conversations")
    ∷ (codes "settings", codes "/settings")
    ∷ (codes "admin roster", codes "/admin")
    ∷ (codes "game roster", codes "/admin/lynrummy")
    ∷ []

unfoldable pub dm_pages : Copied → Text → Text → List Page
unfolding is_dm keep each_folder
dm_pages copied chat uid =
    each_folder copied (codes "dm") 1 chat (codes "/chat/c/")
      (copied.sorted (keep (is_dm copied chat uid) (copied.listdir chat)))

unfoldable pub channel_pages : Copied → Text → List Page
unfolding keep each_folder
channel_pages copied channels =
    if copied.isdir channels
    then each_folder copied (codes "channel") 1 channels (codes "/channel/")
        (copied.sorted (keep (λ d. copied.isdir (channels /+ d)) (copied.listdir channels)))
    else []

-- The names are sorted before they are cut, as the source sorts them.
unfoldable pub user_docs : Copied → Text → List Page
unfolding doc_pages stems keep
user_docs copied docs =
    if copied.isdir docs
    then doc_pages copied 1
        (stems (copied.sorted (keep (ends_with (codes ".md")) (copied.listdir docs))))
    else []

-- `pages`
unfoldable pub pages : Copied → Text → Text → List Page
unfolding fixed dm_pages channel_pages user_docs
pages copied copy uid =
    let chat = copy /+ codes "data" /+ codes "chat" in
    fixed
    ++ (if copied.isdir chat
        then dm_pages copied chat uid
          ++ (channel_pages copied (chat /+ codes "channels")
              ++ user_docs copied (chat /+ codes "users" /+ uid /+ codes "docs"))
        else [])

-- ===== src/Hosts.antt =====
-- droplet/compare_hosts.py: the pages of a copy, asked of two hosts.
pub mod Pages
pub mod Alike
pub mod Covers
pub mod Tests
use gopher_metal.Prelude.{
  ℕ, ◌+◌, ◌≡◌, Bool, true, false, not, ◌&&◌, ◌||◌, List, [], ◌∷◌, ◌++◌, map, Option, none, some,
  length, if◌then◌else◌,
}
use gopher_metal.Prelude.Text.{Text, codes, text_eq}
use gopher_metal.Hosts.Pages.{Page}

-- `ask`: the status and the body that a host answers a path with, for the cookie
abbrev pub Host : Type 0
Host = Text → Text × Text

-- What is reported of a page: the two statuses, or that the bodies differ, or a write that was refused.
pub data Difference : Type 0 where
  statuses : Text → Text → Difference
  bodies : Text → Difference
  refused : Text → Difference

-- one page of `walk`; `hashlib.sha256` is a parameter, and the two bodies are as `Written.normalize` leaves
-- them
unfoldable pub judge_page :
    (Text → Text) → Page → Text × Text → Text × Text → List (Text × Difference)
judge_page sha256 (label, path) (sa, ba) (sb, bb) =
    if not (text_eq sa sb)
    then (label, statuses sa sb) ∷ []
    else if not (text_eq (sha256 ba) (sha256 bb))
    then (label, bodies sa) ∷ []
    else []

-- the answer with its body normalized
normal : (Text → Text) → Text × Text → Text × Text
normal normalize (status, body) = (status, normalize body)

-- `walk`; before the writes nothing is normalized
unfoldable pub walk :
    (Text → Text)
    → List Page
    → Host
    → Host
    → (Text → Text)
    → (Text → Text)
    → List (Text × Difference)
unfolding judge_page normal
walk sha256 [] a b na nb = []
walk sha256 ((label, path) ∷ walked) a b na nb =
    judge_page sha256 (label, path) (normal na (a path)) (normal nb (b path))
    ++ walk sha256 walked a b na nb

-- What the writes on both hosts leave: the hosts, each with what its `Written` normalizes, and its answer
-- for the picture under its own name.
pub record After : Type 0 where
  pub a : Host
  pub b : Host
  pub normalize_a : Text → Text
  pub normalize_b : Text → Text
  pub picture_a : Text × Text
  pub picture_b : Text × Text

-- the writes: not asked for, refused with what was raised, or made, on the conversation's topic
pub data Writes : Type 0 where
  no_writes : Writes
  write_refused : Text → Writes
  written : Text → After → Writes

unfoldable pub mine : Text → List Page
mine base =
    (codes "the written topic", base)
    ∷ (codes "the written topic, raw", base ++ codes "/raw")
    ∷ (codes "the written topic, reactions", base ++ codes "/reactions")
    ∷ []

-- for label, path in walked + mine
unfoldable pub again : List Page → Text → List Page
unfolding mine
again walked base =
    map (λ page. (codes "after the writes: " ++ page.0, page.1)) (walked ++ mine base)

-- the picture itself
unfoldable pub judge_picture : Text × Text → Text × Text → List (Text × Difference)
judge_picture (sa, ba) (sb, bb) =
    if not (text_eq sa sb && text_eq ba bb) || not (text_eq sa (codes "200"))
    then (codes "after the writes: the written topic, the upload", statuses sa sb) ∷ []
    else []

unchanged : Text → Text
unchanged body = body

-- `compare`, of the pages to walk: how many, and what differs
unfoldable pub compare :
    (Text → Text) → List Page → Host → Host → Writes → ℕ × List (Text × Difference)
unfolding walk again judge_picture unchanged
compare sha256 walked a b no_writes = (length walked, walk sha256 walked a b unchanged unchanged)
compare sha256 walked a b (write_refused what) = (
  length walked,
  walk sha256 walked a b unchanged unchanged ++ ((codes "writes", refused what) ∷ []),
)
compare sha256 walked a b (written base after) = (
  length walked + length (again walked base) + 1,
  (walk sha256 walked a b unchanged unchanged
        ++ walk sha256 (again walked base) after.a after.b after.normalize_a after.normalize_b)
      ++ judge_picture after.picture_a after.picture_b,
)

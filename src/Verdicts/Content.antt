-- ===== src/Verdicts/Content.antt =====
-- `walk`, `served_files` and `content_id`: what of the two checkouts names the content that is judged.
use gopher_metal.Prelude.{
  ℕ, zero, suc, ◌≡◌, refl, ap, sym, ◌∙◌, Bool, List, [], ◌∷◌, ◌++◌, map, append_assoc, append-nil,
  Option, none, some, length, All, arith, if◌then◌else◌,
}
use mathlib.Core.List.{append_cancel_left}
use gopher_metal.Prelude.Text.{Text, codes}

-- A checkout: os.path.isfile, the files that os.walk finds under an entry, each as a path from the root, and
-- the bytes of a file, or nothing where it is not there.
pub record Checkout : Type 0 where
  pub isfile : Text → Bool
  pub walked : Text → List Text
  pub bytes_of : Text → Option Text

-- `walk`
unfoldable pub walk : Checkout → List Text → List Text
walk root [] = []
walk root (e ∷ entries) =
    let rest = root.walked e ++ walk root entries in if root.isfile e then e ∷ rest else rest

abbrev pub assets : Text
assets = codes "zig-server/assets.zon"

-- `served_files`, of what `served_by` gives: `sorted` is of a set, and `normpath` is of os.path
unfoldable pub served_files :
    (List Text → List Text) → (Text → Text) → Checkout → List Text → List Text → List Text
unfolding walk
served_files sorted normpath root embedded site = sorted (
    walk root (codes "zig-server/src" ∷ site)
    ++ (assets ∷ map (λ path. normpath (codes "zig-server/" ++ path)) embedded))

unfoldable pub hashed : (Text → Text) → Option Text → Text
hashed sha256 none = codes "missing"
hashed sha256 (some bytes) = sha256 bytes

-- h.update(f"{repo}/{rel}".encode() + b"\0")
named : (Text → Text) → Text → Text → Text
named encode repo rel = encode (repo ++ (codes "/" ++ rel)) ++ (0 ∷ [])

-- what the files of one checkout add to the hash
unfoldable pub updates : (Text → Text) → (Text → Text) → Text → Checkout → List Text → Text
unfolding hashed named
updates encode sha256 repo root [] = []
updates encode sha256 repo root (rel ∷ rels) =
    named encode repo rel
    ++ (hashed sha256 (root.bytes_of rel) ++ updates encode sha256 repo root rels)

first : ℕ → Text → Text
first zero t = []
first (suc n) [] = []
first (suc n) (c ∷ cs) = c ∷ first n cs

-- what is hashed: the files of angry-gopher and those of zig-webbox
unfoldable pub content_bytes :
    (Text → Text) → (Text → Text) → Checkout → List Text → Checkout → List Text → Text
unfolding updates
content_bytes encode sha256 gopher served webbox built =
    updates encode sha256 (codes "angry-gopher") gopher served
    ++ updates encode sha256 (codes "zig-webbox") webbox built

-- `content_id`, of the files that each checkout serves; `sha256` is the digest, and `hex` its digits
unfoldable pub content_id :
    (Text → Text)
    → (Text → Text)
    → (Text → Text)
    → Checkout
    → List Text
    → Checkout
    → List Text
    → Text
unfolding first content_bytes
content_id encode sha256 hex gopher served webbox built =
    codes "content-"
    ++ first 16 (hex (sha256 (content_bytes encode sha256 gopher served webbox built)))

-- Fronts of one length are the same where the whole is.
same_fronts : (a b c d : Text) → length a ≡ length b → a ++ c ≡ b ++ d → (a ≡ b) × (c ≡ d)
same_fronts [] [] c d n h = (refl, h)
same_fronts [] (y ∷ b) c d n h = absurd (omega (arith, n))
same_fronts (x ∷ a) [] c d n h = absurd (omega (arith, n))
same_fronts (x ∷ a) (y ∷ b) c d n h =
    let first : x ≡ y = ground arith in
    let rest : a ++ c ≡ b ++ d = ground arith in
    let (e, k) = same_fronts a b c d (omega (arith, n)) rest in (cc (first, e), k)

regroup : (n x u s : Text) → (n ++ (x ++ u)) ++ s ≡ n ++ (x ++ (u ++ s))
regroup n x u s = append_assoc n (x ++ u) s ∙ ap (λ t. n ++ t) (append_assoc x u s)

module _ (encode sha256 : Text → Text)
    (whole : (t u : Text) → length (sha256 t) ≡ length (sha256 u)) where
  -- Both checkouts have the file.
  abbrev pub BothHave : Checkout → Checkout → Text → Type 0
  BothHave a b rel = (x : Text) × (y : Text) × (a.bytes_of rel ≡ some x) × (b.bytes_of rel ≡ some y)

  -- The file has the same digest in both.
  abbrev pub SameDigest : Checkout → Checkout → Text → Type 0
  SameDigest a b rel = hashed sha256 (a.bytes_of rel) ≡ hashed sha256 (b.bytes_of rel)

  same_length :
      (a b : Checkout) (rel : Text)
      → BothHave a b rel
      → length (hashed sha256 (a.bytes_of rel)) ≡ length (hashed sha256 (b.bytes_of rel))
  unfolding hashed
  same_length a b rel (x, y, p, q) =
      ap (λ o. length (hashed sha256 o)) p ∙ whole x y ∙ sym (ap (λ o. length (hashed sha256 o)) q)

  same_updates :
      (repo : Text) (a b : Checkout) (rels : List Text) (s t : Text)
      → All (BothHave a b) rels
      → updates encode sha256 repo a rels ++ s ≡ updates encode sha256 repo b rels ++ t
      → All (SameDigest a b) rels × (s ≡ t)
  unfolding updates
  same_updates repo a b [] s t h e = (tt, e)
  same_updates repo a b (rel ∷ rels) s t h e =
      let name = named encode repo rel in
      let x = hashed sha256 (a.bytes_of rel) in
      let y = hashed sha256 (b.bytes_of rel) in
      let u = updates encode sha256 repo a rels in
      let v = updates encode sha256 repo b rels in
      let behind : x ++ (u ++ s) ≡ y ++ (v ++ t) =
        append_cancel_left name (x ++ (u ++ s)) (y ++ (v ++ t))
          (sym (regroup name x u s) ∙ e ∙ regroup name y v t) in
      let (now, later) = same_fronts x y (u ++ s) (v ++ t) (same_length a b rel h.0) behind in
      let (rest, k) = same_updates repo a b rels s t h.1 later in ((now, rest), k)

  -- With digests of one length, what is hashed of two pairs of checkouts that have the same files is the
  -- same only where every file has the same digest.
  pub content_bytes-SameDigest :
      (gopher webbox gopher_now webbox_now : Checkout) (served built : List Text)
      → All (BothHave gopher gopher_now) served
      → All (BothHave webbox webbox_now) built
      → content_bytes encode sha256 gopher served webbox built
        ≡ content_bytes encode sha256 gopher_now served webbox_now built
      → All (SameDigest gopher gopher_now) served × All (SameDigest webbox webbox_now) built
  unfolding content_bytes
  content_bytes-SameDigest gopher webbox gopher_now webbox_now served built h k e =
      let (first, rest) =
        same_updates (codes "angry-gopher") gopher gopher_now served
          (updates encode sha256 (codes "zig-webbox") webbox built)
          (updates encode sha256 (codes "zig-webbox") webbox_now built) h e in
      let u = updates encode sha256 (codes "zig-webbox") webbox built in
      let v = updates encode sha256 (codes "zig-webbox") webbox_now built in
      let (second, none_left) =
        same_updates (codes "zig-webbox") webbox webbox_now built [] [] k
          (append-nil u ∙ rest ∙ sym (append-nil v)) in
      (first, second)

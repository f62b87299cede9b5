-- ===== src/Copy/Compare.antt =====
-- `compare` of droplet/compare_volume.py: every file of a copy against a volume. A walk of the copy is
-- the list of what `os.walk` hands out, in the order in which the code looks at it; a file of it comes
-- with its size, its time in nanoseconds, and the SHA-256 of its bytes.
pub mod Content
pub mod Sound
use gopher_metal.Prelude.Text.{Text, text_eq, text_in}
use gopher_metal.Prelude.{
  ℕ, zero, suc, ◌+◌, ◌-◌, ◌*◌, ◌^◌, ◌≡◌, Bool, true, false, not, ◌&&◌, ◌||◌, List, [], ◌∷◌, ◌++◌,
  map, Option, none, some, ltb, leb, ◌==◌, if◌then◌else◌,
}
use gopher_metal.Fat.Bytes.{Bytes, slice, Problem, problem, Error, Result, ok, err, ◌>>=◌}
use gopher_metal.Fat.Volume.{Volume, volume, cluster}
use gopher_metal.Fat.Chain.{chain}
use gopher_metal.Fat.Dirent.{Complaint}
use gopher_metal.Fat.Walk.{Found, Walk, walk, append_bytes}
use gopher_metal.Fat.Check.{check}

-- an item of the copy
pub record Source : Type 0 where
  pub rel : Text
  pub is_dir : Bool
  pub size : ℕ
  pub digest : ℕ
  pub mtime : ℕ

-- A finding, by its kind, with its path; of the words of a "content" whether the chain was read.
pub data Finding : Type 0 where
  of_check : Complaint → Finding
  missing_item other_kind size_differs content_differs no_date time_differs extra : Text → Finding
  other_case : Text → Text → Finding
  unread : Text → Problem → Finding

-- on_volume[full] = (is_dir, size, first)
pub keep_item : Found → List Found → List Found
keep_item f [] = f ∷ []
keep_item f (g ∷ gs) = if text_eq g.path f.path then f ∷ gs else g ∷ keep_item f gs

pub on_volume : List Found → List Found → List Found
unfolding keep_item
on_volume kept [] = kept
on_volume kept (f ∷ fs) = on_volume (keep_item f kept) fs

-- on_volume.get(rel)
unfoldable pub find_item : Text → List Found → Option Found
find_item rel [] = none
find_item rel (f ∷ fs) = if text_eq f.path rel then some f else find_item rel fs

-- a <= b, by code points
pub text_le : Text → Text → Bool
text_le [] b = true
text_le (x ∷ xs) [] = false
text_le (x ∷ xs) (y ∷ ys) = ltb x y || (x == y && text_le xs ys)

pub insert_item : Found → List Found → List Found
unfolding text_le
insert_item f [] = f ∷ []
insert_item f (g ∷ gs) = if text_le f.path g.path then f ∷ g ∷ gs else g ∷ insert_item f gs

-- sorted(on_volume)
pub sort_items : List Found → List Found
unfolding insert_item
sort_items [] = []
sort_items (f ∷ fs) = insert_item f (sort_items fs)

-- v.mtime.get(rel)
unfoldable pub mtime_of : Text → List (Text × Option ℕ) → Option ℕ
mtime_of rel [] = none
mtime_of rel ((path, m) ∷ ms) = if text_eq path rel then m else mtime_of rel ms

-- the bytes that the loop over the chain hands to the hash, of `left` bytes to come
unfoldable pub content : Volume → ℕ → List ℕ → Result Bytes
content v left [] = ok (record { size = 0; at = λ _. 0 })
content v left (c ∷ cs) =
    let more = (do
      b ← cluster v c
      let block = slice b 0 left
      rest ← content v (left - block.size) cs
      ok (append_bytes block rest)) in
    if left == 0 then ok (record { size = 0; at = λ _. 0 }) else more

-- `v.chain(v_first) if v_size else ()`, and the loop over it
unfoldable pub file_content : Volume → Found → Result Bytes
unfolding content
file_content v f =
    let read = (do cs ← chain v f.start; content v f.bytes cs) in
    if f.bytes == 0 then ok (record { size = 0; at = λ _. 0 }) else read

-- abs(vt - st.st_mtime) > TIME_SLACK
pub too_far : ℕ → ℕ → Bool
too_far vt mtime =
    let volume_ns = vt * 10 ^ 9 in ltb (2 * 10 ^ 9) ((volume_ns - mtime) + (mtime - volume_ns))

check_time : Text → Option ℕ → ℕ → List Finding
unfolding too_far
check_time rel none mtime = no_date rel ∷ []
check_time rel (some vt) mtime = if too_far vt mtime then time_differs rel ∷ [] else []

-- `str.casefold` and the SHA-256 of a byte string are the standard library's.
module _ (casefold : Text → Text) (sha256 : Bytes → ℕ) where
  check_content : Text → Option ℕ → Source → Result Bytes → Result (List Finding)
  unfolding check_time
  check_content rel vt s (ok b) =
      let differs = if not (sha256 b == s.digest) then content_differs rel ∷ [] else [] in
      ok (differs ++ check_time rel vt s.mtime)
  check_content rel vt s (err (problem p)) = ok (unread rel p ∷ [])
  check_content rel vt s (err e) = err e

  -- a source that the volume has under its name
  pub compare_found : Volume → Option ℕ → Source → Found → Result (List Finding)
  unfolding check_content file_content
  compare_found v vt s f =
      let contents = check_content s.rel vt s (file_content v f) in
      if (f.is_dir && not s.is_dir) || (not f.is_dir && s.is_dir)
      then ok (other_kind s.rel ∷ [])
      else if s.is_dir
      then ok []
      else if not (f.bytes == s.size)
      then ok (size_differs s.rel ∷ [])
      else contents

  -- by_fold[rel.casefold()]
  pub near : Text → List Found → List Text
  near folded [] = []
  near folded (f ∷ fs) =
      let rest = near folded fs in if text_eq (casefold f.path) folded then f.path ∷ rest else rest

  near_finding : Text → List Text → List Finding
  near_finding rel [] = missing_item rel ∷ []
  near_finding rel (n ∷ ns) = other_case rel n ∷ []

  -- one round of the loop: the findings and the names seen
  pub compare_item : Volume → Walk → List Found → Source → Result (List Finding × List Text)
  unfolding compare_found near near_finding
  compare_item v w there s = elim (find_item s.rel there) [
    | none ↦ let ns = near (casefold s.rel) there in ok (near_finding s.rel ns, ns)
    | some f ↦ do found ← compare_found v (mtime_of s.rel w.mtime) s f; ok (found, s.rel ∷ [])
  ]

  pub compare_items : Volume → Walk → List Found → List Source → Result (List Finding × List Text)
  unfolding compare_item
  compare_items v w there [] = ok ([], [])
  compare_items v w there (s ∷ ss) = do
    (found, seen) ← compare_item v w there s
    (more, seen') ← compare_items v w there ss
    ok (found ++ more, seen ++ seen')

  -- what the volume has and no source has shown
  pub extras : List Text → List Found → List Finding
  extras seen [] = []
  extras seen (f ∷ fs) =
      let rest = extras seen fs in if text_in f.path seen then rest else extra f.path ∷ rest

  unfoldable pub compare : List Source → Bytes → Result (List Finding)
  unfolding compare_items extras on_volume sort_items
  compare copy image = do
    v ← volume image
    (problems, _) ← check casefold v
    w ← walk casefold v []
    let there = on_volume [] w.found
    (found, seen) ← compare_items v w there copy
    ok (map of_check problems ++ (found ++ extras seen (sort_items there)))

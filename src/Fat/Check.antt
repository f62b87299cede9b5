-- ===== src/Fat/Check.antt =====
-- `check`, `fat32_problems` and `read` of tools/fat16_read.py, and the verdict of its command line.
pub mod Fields
pub mod Sound
pub mod Uncaught
use Prim.Native.Nat.{bit_and}
use gopher_metal.Prelude.Text.{Text, text_eq}
use gopher_metal.Prelude.{
  ℕ, zero, suc, ◌+◌, ◌%◌, Bool, true, false, not, ◌&&◌, ◌||◌, List, [], ◌∷◌, ◌++◌, Option, none,
  some, ◌==◌, if◌then◌else◌,
}
use gopher_metal.Fat.Bytes.{
  Bytes, slice, bytes_eq, unpack, is_directory, not_found, problem, Result, ok, err, ◌>>=◌,
}
use gopher_metal.Fat.Volume.{Kind, fat16, fat32, Volume, bad, sectors, fat, free_clusters, volume}
use gopher_metal.Fat.Chain.{chain, is_outside}
use gopher_metal.Fat.Dirent.{
  Complaint, fats_differ, media_byte, version_not_0, mirroring_off, root_outside, fsinfo_signatures,
  free_count, hint_outside, leaked, rstrip, lstrip,
}
use gopher_metal.Fat.Walk.{Found, Walk, owner_of, join_clusters, walk}

abbrev note_if : Bool → Complaint → List Complaint
note_if test p = if test then p ∷ [] else []

-- the copies from number `k` on against the first
pub differing : Bytes → ℕ → List Bytes → List Complaint
differing f k [] = []
differing f k (g ∷ gs) = note_if (not (bytes_eq g f)) (fats_differ k) ++ differing f (k + 1) gs

pub fat_copies : List Bytes → List Complaint
unfolding differing
fat_copies [] = []
fat_copies (f ∷ fs) = differing f 2 fs

-- what FSInfo says of the free clusters and of where to look for one
fsinfo_counts : Volume → Bytes → Result (List Complaint)
fsinfo_counts v fs = do
  count ← unpack 4 fs 488
  hint ← unpack 4 fs 492
  free ← free_clusters v
  ok (
      note_if (not (count == 0xFFFFFFFF) && not (count == free)) free_count
      ++ note_if (not (hint == 0xFFFFFFFF) && is_outside v hint) hint_outside)

fsinfo_problems : Volume → Bytes → Result (List Complaint)
unfolding fsinfo_counts
fsinfo_problems v fs = do
  lead ← unpack 4 fs 0
  struc ← unpack 4 fs 484
  trail ← unpack 4 fs 508
  let counts = fsinfo_counts v fs
  if not (lead == 0x41615252 && struc == 0x61417272 && trail == 0xAA550000)
      then ok (fsinfo_signatures ∷ [])
      else counts

pub fat32_problems : Volume → Result (List Complaint)
unfolding fsinfo_problems
fat32_problems v = do
  fs ← sectors v v.fsinfo_sector 1
  more ← fsinfo_problems v fs
  ok (
      note_if (not (v.fs_ver == 0)) version_not_0
      ++ (note_if (not (bit_and v.ext_flags 0x80 == 0)) mirroring_off
          ++ (note_if (is_outside v v.root_cluster) root_outside ++ more)))

pub kind_problems : Kind → Volume → Result (List Complaint)
unfolding fat32_problems
kind_problems fat16 v = ok []
kind_problems fat32 v = fat32_problems v

is_owned : Option Text → Bool
is_owned none = false
is_owned (some path) = true

-- the used clusters that have no owner, among the `left` clusters from `c` on
pub leaks_from : Volume → List (ℕ × Text) → ℕ → ℕ → Result (List ℕ)
unfolding is_owned
leaks_from v owner c zero = ok []
leaks_from v owner c (suc left) =
    let rest = leaks_from v owner (c + 1) left in
    do
      entry ← fat v c
      more ← rest
      ok (
          if not (entry == 0 || entry == bad v) && not (is_owned (owner_of owner c))
          then c ∷ more
          else more)

note_leaks : List ℕ → List Complaint
note_leaks [] = []
note_leaks (c ∷ cs) = leaked (c ∷ cs) ∷ []

is_empty : List Complaint → Bool
is_empty [] = true
is_empty (p ∷ ps) = false

verdict : Result (List Complaint × Walk) → Result Bool
unfolding is_empty
verdict (ok (ps, w)) = ok (is_empty ps)
verdict (err (problem p)) = ok false
verdict (err e) = err e

module _ (casefold : Text → Text) where
  -- `check`: what it returns, with the walk that it leaves in the volume
  unfoldable pub check : Volume → Result (List Complaint × Walk)
  unfolding fat_copies kind_problems note_leaks leaks_from
  check v = do
    media ← fat v 0
    more ← kind_problems v.kind v
    w ← walk casefold v (
        fat_copies v.fats
        ++ (note_if (not (media % 256 == v.img.at (v.base + 21))) media_byte ++ more))
    leaks ← leaks_from v w.owner 2 v.clusters
    ok (w.problems ++ note_leaks leaks, w)

  -- `main` for `check` of one image: whether it prints "ok"; an exception other than `Problem`
  -- passes.
  unfoldable pub judge : Bytes → Result Bool
  unfolding verdict check
  judge img = verdict (volume img >>= check)

  -- the loop of `read`, for the path in the form that it compares
  pub read_found : Volume → Text → List Found → Result Bytes
  read_found v want [] = err (problem not_found)
  read_found v want (f ∷ fs) =
      let rest = read_found v want fs in
      let content = (do cs ← chain v f.start; b ← join_clusters v cs; ok (slice b 0 f.bytes)) in
      if text_eq (casefold f.path) want
      then (if f.is_dir
          then err (problem is_directory)
          else if f.bytes == 0
          then ok (record { size = 0; at = λ _. 0 })
          else content)
      else rest

  -- `read`
  unfoldable pub read : Volume → Text → Result Bytes
  unfolding read_found
  read v path = do
    w ← walk casefold v []
    read_found v (casefold (b'/' ∷ rstrip b'/' (lstrip b'/' path))) w.found

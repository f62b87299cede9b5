-- ===== src/Fat/Check/Fields.antt =====
-- FAT32's own fields in a volume that `check` finds nothing in.
use Prim.Native.Nat.{bit_and}
use gopher_metal.Prelude.{
  append_eq_nil, ℕ, ◌≤◌, ◌≡◌, ◌⊎◌, refl, ap, ◌∙◌, Bool, true, false, not, ◌&&◌, List, [], ◌∷◌,
  Bool-cases, inl, inr, arith, ==_iff, ◌==◌, if◌then◌else◌,
}
use gopher_metal.Fat.Bytes.{Bytes, unpack, Result, ok, >>=-eq-ok}
use gopher_metal.Fat.Volume.{Kind, fat16, fat32, Volume, max_cluster, sectors, free_clusters}
use gopher_metal.Fat.Chain.{is_outside}
use gopher_metal.Fat.Dirent.{
  Complaint, version_not_0, mirroring_off, root_outside, fsinfo_signatures, free_count,
  hint_outside,
}
use gopher_metal.Fat.Check.{kind_problems, note_if, fat32_problems, fsinfo_problems, fsinfo_counts}

pub ok-eq : {xs ys : List Complaint} → ◌≡◌ {A = Result (List Complaint)} (ok xs) (ok ys) → xs ≡ ys
ok-eq h = ground arith

pub note_if-nil : (b : Bool) (p : Complaint) → note_if b p ≡ [] → b ≡ false
note_if-nil b p h = ground arith

-- FSInfo: its sector has the three signatures, its count of free clusters is unknown or right, and its
-- hint is unknown or a cluster of the data region.
pub record FsInfoFits (v : Volume) : Type 0 where
  pub fs : Bytes
  pub read_is : sectors v v.fsinfo_sector 1 ≡ ok fs
  pub lead : unpack 4 fs 0 ≡ ok 0x41615252
  pub struc : unpack 4 fs 484 ≡ ok 0x61417272
  pub trail : unpack 4 fs 508 ≡ ok 0xAA550000
  pub counted_free : ℕ
  pub count_is : unpack 4 fs 488 ≡ ok counted_free
  pub free : ℕ
  pub free_is : free_clusters v ≡ ok free
  pub count_fits : (counted_free ≡ 0xFFFFFFFF) ⊎ (counted_free ≡ free)
  pub hint : ℕ
  pub hint_is : unpack 4 fs 492 ≡ ok hint
  pub hint_fits : (hint ≡ 0xFFFFFFFF) ⊎ ((2 ≤ hint) × (hint ≤ max_cluster v))

is_true : {b : Bool} → not b ≡ false → b ≡ true
is_true {b} h = ground arith

counted :
    (a b c : Bool) (r : Result (List Complaint))
    → (if not (a && b && c) then ok (fsinfo_signatures ∷ []) else r) ≡ ok []
    → (a ≡ true) × (b ≡ true) × (c ≡ true) × (r ≡ ok [])
counted true true true r h = (refl, refl, refl, h)
counted true true false r h = absurd (ground arith)
counted true false c r h = absurd (ground arith)
counted false b c r h = absurd (ground arith)

either_test : (n x : ℕ) (b : Bool) → (not (n == x) && b) ≡ false → (n ≡ x) ⊎ (b ≡ false)
either_test n x b h = elim (Bool-cases (n == x)) [
  | inl same ↦ inl ((==_iff n x).0 same)
  | inr other ↦ inr (ground arith)
]

inside : (v : Volume) (c : ℕ) → is_outside v c ≡ false → (2 ≤ c) × (c ≤ max_cluster v)
inside v c h = (ground arith, ground arith)

unpacked :
    (n : ℕ) (b : Bytes) (o x y : ℕ) → unpack n b o ≡ ok x → (x == y) ≡ true → unpack n b o ≡ ok y
unpacked n b o x y h e = h ∙ ap ok ((==_iff x y).0 e)

fsinfo_problems-FsInfoFits :
    (v : Volume) (fs : Bytes)
    → sectors v v.fsinfo_sector 1 ≡ ok fs
    → fsinfo_problems v fs ≡ ok []
    → FsInfoFits v
unfolding fsinfo_problems fsinfo_counts
fsinfo_problems-FsInfoFits v fs r h =
    let (lead, a, h1) = >>=-eq-ok (unpack 4 fs 0) _ {b = []} h in
    let (struc, b, h2) = >>=-eq-ok (unpack 4 fs 484) _ {b = []} h1 in
    let (trail, c, h3) = >>=-eq-ok (unpack 4 fs 508) _ {b = []} h2 in
    let (l, s, t, h4) =
      counted (lead == 0x41615252) (struc == 0x61417272) (trail == 0xAA550000) _ h3 in
    let (count, d, h5) = >>=-eq-ok (unpack 4 fs 488) _ {b = []} h4 in
    let (hint, e, h6) = >>=-eq-ok (unpack 4 fs 492) _ {b = []} h5 in
    let (free, f, h7) = >>=-eq-ok (free_clusters v) _ {b = []} h6 in
    let (p, q) =
      append_eq_nil (note_if (not (count == 0xFFFFFFFF) && not (count == free)) free_count) _
        (ok-eq h7) in
    record {
      fs = fs;
      read_is = r;
      lead = unpacked 4 fs 0 lead 0x41615252 a l;
      struc = unpacked 4 fs 484 struc 0x61417272 b s;
      trail = unpacked 4 fs 508 trail 0xAA550000 c t;
      counted_free = count;
      count_is = d;
      free = free;
      free_is = f;
      count_fits = elim (either_test count 0xFFFFFFFF _ (note_if-nil _ free_count p)) [
        | inl unknown ↦ inl unknown
        | inr right ↦ inr ((==_iff count free).0 (is_true right))
      ];
      hint = hint;
      hint_is = e;
      hint_fits = elim (either_test hint 0xFFFFFFFF _ (note_if-nil _ hint_outside q)) [
        | inl unknown ↦ inl unknown
        | inr right ↦ inr (inside v hint right)
      ];
    }

-- FAT32's own fields: version 0, the FATs mirrored, the root directory in the data region, and FSInfo.
pub record Fat32Fields (v : Volume) : Type 0 where
  pub version : v.fs_ver ≡ 0
  pub mirrored : bit_and v.ext_flags 0x80 ≡ 0
  pub root_low : 2 ≤ v.root_cluster
  pub root_high : v.root_cluster ≤ max_cluster v
  pub fsinfo : FsInfoFits v

fat32_problems-nil : (v : Volume) → fat32_problems v ≡ ok [] → Fat32Fields v
unfolding fat32_problems
fat32_problems-nil v h =
    let (fs, r, k) = >>=-eq-ok (sectors v v.fsinfo_sector 1) _ {b = []} h in
    let (more, f, e) = >>=-eq-ok (fsinfo_problems v fs) _ {b = []} k in
    let (a, rest) = append_eq_nil (note_if (not (v.fs_ver == 0)) version_not_0) _ (ok-eq e) in
    let (b, rest') =
      append_eq_nil (note_if (not (bit_and v.ext_flags 0x80 == 0)) mirroring_off) _ rest in
    let (c, none_more) =
      append_eq_nil (note_if (is_outside v v.root_cluster) root_outside) _ rest' in
    record {
      version = ground arith;
      mirrored = ground arith;
      root_low = ground arith;
      root_high = ground arith;
      fsinfo = fsinfo_problems-FsInfoFits v fs r (f ∙ ap ok none_more);
    }

-- A FAT32 volume with no complaint about its fields has them right.
pub kind_problems-nil :
    (k : Kind) (v : Volume) → kind_problems k v ≡ ok [] → k ≡ fat32 → Fat32Fields v
unfolding kind_problems
kind_problems-nil fat16 v h e = absurd (ground arith)
kind_problems-nil fat32 v h e = fat32_problems-nil v h

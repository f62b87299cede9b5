-- ===== src/Fat/Volume/Geometry.antt =====
-- A volume that mounts: what its geometry keeps to.
use Prim.Native.Nat.{bit_and}
use gopher_metal.Prelude.{
  ℕ, zero, suc, ◌+◌, ◌-◌, ◌*◌, ◌/◌, ◌%◌, ◌^◌, ◌≤◌, ◌<◌, ◌≡◌, refl, ap, ◌∙◌, subst, if◌then◌else◌,
  ltb, Bool-cases, inl, inr, Bool, true, false, List, [], ◌∷◌, length, arith, All,
}
use gopher_metal.Fat.Bytes.{
  Bytes, unpack, le_value, struct_error, overflow_error, index_error, Result, ok, err, >>=-eq-ok,
  refuse_if, slice, no_signature,
}
use gopher_metal.Fat.Volume.{
  Volume, sector, entry_bytes, max_cluster, kind_of, is_fat32, read_sectors, read_fats, volume_at,
  volume, find_volume, holds_at, efi_part, gpt_entries, fat, fat_copy, Boot, boot_fields,
  boot_tests, no_mark, clusters_of, fat_sectors_of,
}

ok-eq : {xs ys : List Bytes} → ◌≡◌ {A = Result (List Bytes)} (ok xs) (ok ys) → xs ≡ ys
ok-eq h = ground arith

volume-eq : {v u : Volume} → ◌≡◌ {A = Result Volume} (ok v) (ok u) → v ≡ u
volume-eq h = cc

-- What the constructor has tested.
pub record IsMounted (v : Volume) : Type 0 where
  pub enough : 4085 ≤ v.clusters
  pub kind_is : v.kind ≡ kind_of v.clusters
  pub power : bit_and v.spc (v.spc - 1) ≡ 0
  pub positive : 0 < v.spc
  pub fits : v.clusters + 2 ≤ v.fat_sectors * sector / entry_bytes v
  pub copies : length v.fats ≡ v.nfats
  pub sizes : All (λ f. f.size ≡ v.fat_sectors * sector) v.fats

slice_size :
    (img : Bytes) (base lba count : ℕ) {b : Bytes}
    → read_sectors img base lba count ≡ ok b
    → b.size ≡ count * sector
unfolding read_sectors
slice_size img base lba count h = ground arith

read_fats-ok :
    (img : Bytes) (base fat_start fat_sectors k left : ℕ) (fats : List Bytes)
    → read_fats img base fat_start fat_sectors k left ≡ ok fats
    → (length fats ≡ left) × All (λ f. f.size ≡ fat_sectors * sector) fats
unfolding read_fats
read_fats-ok img base fat_start fat_sectors k zero [] h = (refl, tt)
read_fats-ok img base fat_start fat_sectors k zero (f ∷ fs) h = absurd (ground arith)
read_fats-ok img base fat_start fat_sectors k (suc left) fats h =
    let (one, e, h1) =
      >>=-eq-ok (read_sectors img base (fat_start + k * fat_sectors) fat_sectors) _ {b = fats} h in
    let (more, e2, h2) =
      >>=-eq-ok (read_fats img base fat_start fat_sectors (k + 1) left) _ {b = fats} h1 in
    let (len, sizes) = read_fats-ok img base fat_start fat_sectors (k + 1) left more e2 in
    subst (λ l. (length l ≡ suc left) × All (λ f. f.size ≡ fat_sectors * sector) l) (ok-eq h2)
      (ap suc len, (slice_size img base _ fat_sectors e, sizes))

-- What the tests say of the geometry.
record IsTested (b : Boot) : Type 0 where
  enough : 4085 ≤ clusters_of b
  power : bit_and b.spc (b.spc - 1) ≡ 0
  positive : 0 < b.spc
  fits :
      clusters_of b + 2
      ≤ fat_sectors_of b * sector / (if is_fat32 (kind_of (clusters_of b)) then 4 else 2)

boot_tests-IsTested : (b : Boot) (u : Unit {0}) → boot_tests b ≡ ok u → IsTested b
unfolding boot_tests
boot_tests-IsTested b u h = record {
  enough = ground arith;
  power = ground arith;
  positive = ground arith;
  fits = ground arith;
}

volume_at-IsMounted :
    (img : Bytes) (base : ℕ) (v : Volume) → volume_at img base ≡ ok v → IsMounted v
unfolding volume_at
volume_at-IsMounted img base v h =
    let bytes : Bytes = slice img base (base + sector) in
    let (_, _, h1) = >>=-eq-ok (refuse_if (no_mark bytes) no_signature) _ {b = v} h in
    let (b, _, h2) = >>=-eq-ok (boot_fields bytes) _ {b = v} h1 in
    let (u, t, h3) = >>=-eq-ok (boot_tests b) _ {b = v} h2 in
    let (fats, r, h4) =
      >>=-eq-ok (read_fats img base b.reserved (fat_sectors_of b) 0 b.nfats) _ {b = v} h3 in
    let x = boot_tests-IsTested b u t in
    let (len, sizes) = read_fats-ok img base b.reserved (fat_sectors_of b) 0 b.nfats fats r in
    subst IsMounted (volume-eq h4) (record {
      enough = x.enough;
      kind_is = refl;
      power = x.power;
      positive = x.positive;
      fits = x.fits;
      copies = len;
      sizes = sizes;
    })

unpack-ok : (n : ℕ) (b : Bytes) (o : ℕ) → o + n ≤ b.size → (x : ℕ) × (unpack n b o ≡ ok x)
unpack-ok n b o h = (le_value n b o, ground arith)

entry_room :
    (wide : Bool) (clusters sectors size c : ℕ)
    → clusters + 2 ≤ sectors * sector / (if wide then 4 else 2)
    → size ≡ sectors * sector
    → c ≤ clusters + 1
    → c * (if wide then 4 else 2) + (if wide then 4 else 2) ≤ size
entry_room true clusters sectors size c h e hi = omega arith
entry_room false clusters sectors size c h e hi = omega arith

fat_read :
    (v : Volume) (f : Bytes) (fs : List Bytes) (c x : ℕ)
    → v.fats ≡ f ∷ fs
    → unpack (entry_bytes v) f (c * entry_bytes v) ≡ ok x
    → fat v c ≡ ok (if is_fat32 v.kind then x % 2 ^ 28 else x)
unfolding fat
fat_read v f fs c x e u = rw (e, fat_copy) (rw u refl)

table_entry :
    (v : Volume) (fs : List Bytes) (c : ℕ)
    → IsMounted v
    → v.fats ≡ fs
    → 0 < length fs
    → All (λ f. f.size ≡ v.fat_sectors * sector) fs
    → c ≤ max_cluster v
    → (n : ℕ) × (fat v c ≡ ok n)
table_entry v [] c m e len sizes hi = elim len [ ]
table_entry v (f ∷ fs) c m e len sizes hi =
    let (x, u) =
      unpack-ok (entry_bytes v) f (c * entry_bytes v)
        (entry_room (is_fat32 v.kind) v.clusters v.fat_sectors f.size c m.fits sizes.0 hi) in
    (if is_fat32 v.kind then x % 2 ^ 28 else x, fat_read v f fs c x e u)

-- In a volume that mounts and has a FAT, the FAT has an entry for every cluster.
pub volume-fat :
    (img : Bytes) (v : Volume)
    → volume img ≡ ok v
    → 0 < v.nfats
    → (c : ℕ) → c ≤ max_cluster v
    → (n : ℕ) × (fat v c ≡ ok n)
unfolding volume
volume-fat img v h some_fat c hi =
    let (base, _, h1) = >>=-eq-ok (find_volume img) _ {b = v} h in
    let m = volume_at-IsMounted img base v h1 in
    table_entry v v.fats c m refl (omega (arith, m.copies)) m.sizes hi

fat_no_copy :
    (v : Volume) (c : ℕ) (fs : List Bytes) → v.fats ≡ fs → length fs ≡ 0 → fat v c ≡ err index_error
unfolding fat
fat_no_copy v c [] e h = rw (e, fat_copy) refl
fat_no_copy v c (f ∷ fs) e h = absurd (omega arith)

-- A volume that mounts with no FAT has no entry to read.
pub volume_no_fat :
    (img : Bytes) (v : Volume) → volume img ≡ ok v → v.nfats ≡ 0 → fat v 0 ≡ err index_error
unfolding volume
volume_no_fat img v h no_fat =
    let (base, _, h1) = >>=-eq-ok (find_volume img) _ {b = v} h in
    let m = volume_at-IsMounted img base v h1 in fat_no_copy v 0 v.fats refl (m.copies ∙ no_fat)

-- A GPT whose first entry is not in the image: its offset is beyond the image, or beyond what Python takes.
pub volume_short_gpt :
    (img : Bytes) (lba n size : ℕ)
    → 1024 ≤ img.size
    → holds_at efi_part img 512 ≡ true
    → unpack 8 img 584 ≡ ok lba
    → unpack 4 img 592 ≡ ok (suc n)
    → unpack 4 img 596 ≡ ok size
    → img.size < lba * 512 + 40
    → volume img ≡ err (if ltb (lba * 512 + 32) (2 ^ 63) then struct_error else overflow_error)
unfolding volume find_volume gpt_entries
volume_short_gpt img lba n size big mark a b c short =
    elim (Bool-cases (ltb (lba * 512 + 32) (2 ^ 63))) [
      | inl near ↦ ground arith
      | inr far ↦ ground arith
    ]

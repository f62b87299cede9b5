-- ===== src/Fat/Volume.antt =====
-- `find_volume` and `Volume` of tools/fat16_read.py: the GPT, the boot sector and the geometry,
-- a sector, a cluster, an entry of the FAT, and the count of free clusters.
pub mod Reads
pub mod Geometry
use Prim.Native.Nat.{bit_and}
use gopher_metal.Prelude.{
  ℕ, zero, suc, ◌+◌, ◌-◌, ◌*◌, ◌/◌, ◌%◌, ◌^◌, Bool, true, false, not, ◌&&◌, ◌||◌, List, [], ◌∷◌,
  ltb, leb, ◌==◌, if◌then◌else◌,
}
use gopher_metal.Fat.Bytes.{
  Bytes, slice, bytes_eq, unpack, unpack_far, no_partition, no_signature, sector_size,
  not_power_of_two, no_fat_size, few_clusters, fat16_fields, small_fat, past_end, problem,
  index_error, Result, ok, err, ◌>>=◌, ◌>>◌, refuse_if,
}

abbrev pub sector : ℕ
sector = 512

pub data Kind : Type 0 where
  fat16 fat32 : Kind

abbrev pub is_fat32 : Kind → Bool
is_fat32 fat16 = false
is_fat32 fat32 = true

-- b"EFI PART"
abbrev pub efi_part : List ℕ
efi_part = b'E' ∷ b'F' ∷ b'I' ∷ b' ' ∷ b'P' ∷ b'A' ∷ b'R' ∷ b'T' ∷ []

-- img[o:o + len(text)] == text
unfoldable pub holds_at : List ℕ → Bytes → ℕ → Bool
holds_at [] img o = true
holds_at (c ∷ cs) img o = ltb o img.size && img.at o == c && holds_at cs img (o + 1)

-- bytes(16)
abbrev zeros : Bytes
zeros = record { size = 16; at = λ _. 0 }

-- the loop over the GPT's entries, from entry `k` on, with `left` of them to come
pub gpt_entries : Bytes → ℕ → ℕ → ℕ → ℕ → Result ℕ
gpt_entries img entries_lba size k zero = err (problem no_partition)
gpt_entries img entries_lba size k (suc left) =
    let e = entries_lba * sector + k * size in
    let rest = gpt_entries img entries_lba size (k + 1) left in
    do
      first ← unpack_far 8 img (e + 32)
      if not (bytes_eq (slice img e (e + 16)) zeros) && not (first == 0)
          then ok (first * sector)
          else rest

pub find_volume : Bytes → Result ℕ
unfolding holds_at gpt_entries
find_volume img =
    if leb (2 * sector) img.size && holds_at efi_part img sector
    then (do
      entries_lba ← unpack 8 img (sector + 72)
      count ← unpack 4 img (sector + 80)
      size ← unpack 4 img (sector + 84)
      gpt_entries img entries_lba size 0 count)
    else ok 0

pub record Volume : Type 0 where
  pub img : Bytes
  pub base : ℕ
  pub spc : ℕ
  pub nfats : ℕ
  pub fat_sectors : ℕ
  pub ext_flags : ℕ
  pub fs_ver : ℕ
  pub root_cluster : ℕ
  pub fsinfo_sector : ℕ
  pub root_sectors : ℕ
  pub fat_start : ℕ
  pub root_start : ℕ
  pub data_start : ℕ
  pub clusters : ℕ
  pub kind : Kind
  pub fats : List Bytes

-- The attributes that the constructor computes from others, once the kind is known.
abbrev pub entry_bytes : Volume → ℕ
entry_bytes v = if is_fat32 v.kind then 4 else 2

abbrev pub eoc : Volume → ℕ
eoc v = if is_fat32 v.kind then 0x0FFFFFF8 else 0xFFF8

abbrev pub bad : Volume → ℕ
bad v = if is_fat32 v.kind then 0x0FFFFFF7 else 0xFFF7

abbrev pub max_cluster : Volume → ℕ
max_cluster v = v.clusters + 1

abbrev pub cluster_bytes : Volume → ℕ
cluster_bytes v = v.spc * sector

-- `sectors`, of an image and a base
unfoldable pub read_sectors : Bytes → ℕ → ℕ → ℕ → Result Bytes
read_sectors img base lba count =
    let at = base + lba * sector in
    let got = slice img at (at + count * sector) in
    if not (got.size == count * sector) then err (problem past_end) else ok got

abbrev pub sectors : Volume → ℕ → ℕ → Result Bytes
sectors v = read_sectors v.img v.base

-- the list of FAT copies, from copy `k` on, with `left` of them to come
pub read_fats : Bytes → ℕ → ℕ → ℕ → ℕ → ℕ → Result (List Bytes)
unfolding read_sectors
read_fats img base fat_start fat_sectors k zero = ok []
read_fats img base fat_start fat_sectors k (suc left) =
    let rest = read_fats img base fat_start fat_sectors (k + 1) left in
    do
      one ← read_sectors img base (fat_start + k * fat_sectors) fat_sectors
      more ← rest
      ok (one ∷ more)

-- The spec decides the FAT type by the count of clusters, and nothing else.
abbrev pub kind_of : ℕ → Kind
kind_of clusters = if leb 65525 clusters then fat32 else fat16

-- the fields of the boot sector that are kept: `unpack_from` at 11, 32 and 36
pub record Boot : Type 0 where
  pub bytes_per_sector : ℕ
  pub spc : ℕ
  pub reserved : ℕ
  pub nfats : ℕ
  pub root_entries : ℕ
  pub total16 : ℕ
  pub fat16_sectors : ℕ
  pub total32 : ℕ
  pub fat32_sectors : ℕ
  pub ext_flags : ℕ
  pub fs_ver : ℕ
  pub root_cluster : ℕ
  pub fsinfo_sector : ℕ

pub boot_fields : Bytes → Result Boot
boot_fields b = do
  bytes_per_sector ← unpack 2 b 11
  spc ← unpack 1 b 13
  reserved ← unpack 2 b 14
  nfats ← unpack 1 b 16
  root_entries ← unpack 2 b 17
  total16 ← unpack 2 b 19
  fat16_sectors ← unpack 2 b 22
  total32 ← unpack 4 b 32
  fat32_sectors ← unpack 4 b 36
  ext_flags ← unpack 2 b 40
  fs_ver ← unpack 2 b 42
  root_cluster ← unpack 4 b 44
  fsinfo_sector ← unpack 2 b 48
  ok (record {
    bytes_per_sector = bytes_per_sector;
    spc = spc;
    reserved = reserved;
    nfats = nfats;
    root_entries = root_entries;
    total16 = total16;
    fat16_sectors = fat16_sectors;
    total32 = total32;
    fat32_sectors = fat32_sectors;
    ext_flags = ext_flags;
    fs_ver = fs_ver;
    root_cluster = root_cluster;
    fsinfo_sector = fsinfo_sector;
  })

-- What the constructor computes from the boot sector. A `total` below `data_start` gives Python a
-- negative count of clusters, which is below 4085 as the model's 0 is.
abbrev pub fat_sectors_of : Boot → ℕ
fat_sectors_of b = if b.fat16_sectors == 0 then b.fat32_sectors else b.fat16_sectors

abbrev pub root_sectors_of : Boot → ℕ
root_sectors_of b = (b.root_entries * 32 + sector - 1) / sector

abbrev pub root_start_of : Boot → ℕ
root_start_of b = b.reserved + b.nfats * fat_sectors_of b

abbrev pub data_start_of : Boot → ℕ
data_start_of b = root_start_of b + root_sectors_of b

abbrev pub clusters_of : Boot → ℕ
clusters_of b = ((if b.total16 == 0 then b.total32 else b.total16) - data_start_of b) / b.spc

-- the tests of the constructor, in their order
pub boot_tests : Boot → Result (Unit {0})
boot_tests b = do
  let clusters = clusters_of b
  let kind = kind_of clusters
  let width = if is_fat32 kind then 4 else 2
  refuse_if (not (b.bytes_per_sector == sector)) sector_size
  refuse_if (b.spc == 0 || not (bit_and b.spc (b.spc - 1) == 0)) not_power_of_two
  refuse_if (fat_sectors_of b == 0) no_fat_size
  refuse_if (ltb clusters 4085) few_clusters
  refuse_if (is_fat32 kind && (not (b.root_entries == 0) || not (b.fat16_sectors == 0)))
      fat16_fields
  refuse_if (ltb (fat_sectors_of b * sector / width) (clusters + 2)) small_fat

pub make_volume : Bytes → ℕ → Boot → List Bytes → Volume
make_volume img base b fats = record {
  img = img;
  base = base;
  spc = b.spc;
  nfats = b.nfats;
  fat_sectors = fat_sectors_of b;
  ext_flags = b.ext_flags;
  fs_ver = b.fs_ver;
  root_cluster = if is_fat32 (kind_of (clusters_of b)) then b.root_cluster else 0;
  fsinfo_sector = b.fsinfo_sector;
  root_sectors = root_sectors_of b;
  fat_start = b.reserved;
  root_start = root_start_of b;
  data_start = data_start_of b;
  clusters = clusters_of b;
  kind = kind_of (clusters_of b);
  fats = fats;
}

abbrev no_mark : Bytes → Bool
no_mark b = ltb b.size sector || not (b.at 510 == 0x55 && b.at 511 == 0xaa)

-- `Volume(img, base)`, once the base is found
pub volume_at : Bytes → ℕ → Result Volume
unfolding boot_fields boot_tests read_fats make_volume
volume_at img base = do
  refuse_if (no_mark (slice img base (base + sector))) no_signature
  b ← boot_fields (slice img base (base + sector))
  boot_tests b
  fats ← read_fats img base b.reserved (fat_sectors_of b) 0 b.nfats
  ok (make_volume img base b fats)

-- `Volume(img)`, which is also `load` of the image's file
unfoldable pub volume : Bytes → Result Volume
unfolding find_volume volume_at
volume img = do base ← find_volume img; volume_at img base

-- self.fats[copy]
pub fat_copy : List Bytes → ℕ → Result Bytes
fat_copy [] k = err index_error
fat_copy (f ∷ fs) zero = ok f
fat_copy (f ∷ fs) (suc k) = fat_copy fs k

-- `fat`: `& 0x0FFFFFFF` keeps the low 28 bits.
unfoldable pub fat : Volume → ℕ → Result ℕ
unfolding fat_copy
fat v cluster = do
  table ← fat_copy v.fats 0
  raw ← unpack (entry_bytes v) table (cluster * entry_bytes v)
  ok (if is_fat32 v.kind then raw % 2 ^ 28 else raw)

-- the sum of `free_clusters` over the `left` clusters from `c` on
pub free_from : Volume → ℕ → ℕ → Result ℕ
unfolding fat
free_from v c zero = ok 0
free_from v c (suc left) =
    let rest = free_from v (c + 1) left in
    do entry ← fat v c; more ← rest; ok ((if entry == 0 then 1 else 0) + more)

unfoldable pub free_clusters : Volume → Result ℕ
unfolding free_from
free_clusters v = free_from v 2 v.clusters

unfoldable pub cluster : Volume → ℕ → Result Bytes
unfolding read_sectors
cluster v n = sectors v (v.data_start + (n - 2) * v.spc) v.spc

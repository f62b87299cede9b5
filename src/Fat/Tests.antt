-- ===== src/Fat/Tests.antt =====
-- A FAT16 volume of the smallest size, with one file of two clusters, and the theorems at it.
use gopher_metal.Prelude.Text.{text_eq}
use gopher_metal.Prelude.{
  ℕ, ◌+◌, ◌-◌, ◌*◌, ◌≤◌, ◌<◌, ◌≡◌, ◌≢◌, ◌↔◌, inr, refl, true, [], ◌∷◌, some, arith, ltb, ◌==◌,
  if◌then◌else◌, IsDistinct,
}
use gopher_metal.Fat.TestImage.{byte_at, volume_byte, image, same, disk, image-disk, volume_or}
use gopher_metal.Fat.Bytes.{
  Bytes, le_value, same_below, problem, runs_free, index_error, struct_error, ok, err,
}
use gopher_metal.Fat.Volume.Geometry.{volume-fat}
use gopher_metal.Fat.Volume.{Volume, fat, volume, read_sectors, cluster, efi_part, holds_at}
use gopher_metal.Fat.Chain.Exact.{chain_iff}
use gopher_metal.Fat.Chain.Links.{Links}
use gopher_metal.Fat.Chain.Faults.{FailsAt, chain-FailsAt}
use gopher_metal.Fat.Chain.{chain}
use gopher_metal.Fat.Dirent.Checksum.{lfn_checksum_differs}
use gopher_metal.Fat.Dirent.{short_name, lfn_checksum}
use gopher_metal.Fat.Check.Sound.{IsConsistent, judge-IsConsistent}
use gopher_metal.Fat.Check.Uncaught.{judge_no_fat, judge_short_gpt}
use gopher_metal.Fat.Walk.{Walk, walk, join_clusters, owner_of}
use gopher_metal.Fat.Check.{check, judge}
use gopher_metal.Fat.Entries.{entry_step}
use gopher_metal.Fat.DosTime.Order.{dos_time_mono}
use gopher_metal.Fat.DosTime.Packed.{dos_time_packed}
use gopher_metal.Fat.DosTime.Range.{dos_time_range}
use gopher_metal.Fat.DosTime.{dos_time, timegm, month_days}

image_ok : judge same image ≡ ok true
unfolding judge walk volume volume_byte le_value fat chain read_sectors short_name entry_step
    dos_time join_clusters owner_of text_eq cluster same_below
image_ok = refl

judge-IsConsistent_example :
    (v : Volume) × (w : Walk) × (volume image ≡ ok v)
    × (check same v ≡ ok ([], w))
    × IsConsistent same v w
judge-IsConsistent_example = judge-IsConsistent same image image_ok

disk-chain : chain disk 2 ≡ ok (2 ∷ 3 ∷ [])
unfolding disk chain fat
disk-chain = refl

chain_iff_example :
    (chain disk 2 ≡ ok (2 ∷ 3 ∷ [])) ↔ (Links disk 2 (2 ∷ 3 ∷ []) × IsDistinct (2 ∷ 3 ∷ []))
chain_iff_example = chain_iff disk 2 (2 ∷ 3 ∷ [])

chain-FailsAt_example : FailsAt disk [] 9 (problem (runs_free 9))
unfolding disk chain fat
chain-FailsAt_example = chain-FailsAt disk 9 refl

volume-fat_example : (n : ℕ) × (fat disk 3 ≡ ok n)
unfolding disk
volume-fat_example = volume-fat image disk image-disk (omega arith) 3 (omega arith)

abbrev no_fat_image : Bytes
no_fat_image = record {
  size = 4119 * 512;
  at = λ i. if i == 16 then 0 else if i == 19 then 0 else volume_byte i;
}

no_fat_disk : Volume
unfolding volume volume_byte le_value read_sectors volume_or
no_fat_disk = volume_or (volume no_fat_image)

judge_no_fat_example : judge same no_fat_image ≡ err index_error
unfolding no_fat_disk
judge_no_fat_example = judge_no_fat same no_fat_image no_fat_disk refl refl

-- b"EFI PART", then an entry array at sector 100 with one entry of 128 bytes, in two sectors
abbrev gpt_byte : ℕ → ℕ
gpt_byte i =
    if ltb i 512
    then 0
    else if ltb i 520
    then byte_at efi_part (i - 512)
    else if i == 584
    then 100
    else if i == 592
    then 1
    else if i == 596
    then 128
    else 0

abbrev gpt_image : Bytes
gpt_image = record { size = 1024; at = gpt_byte }

judge_short_gpt_example : judge same gpt_image ≡ err struct_error
unfolding byte_at holds_at le_value
judge_short_gpt_example =
    judge_short_gpt same gpt_image 100 0 128 (omega arith) refl refl refl refl (omega arith)

-- 2026-10-04 12:00:02 and, with the same date, two seconds later
dos_time_mono_example : 1791115202 < 1791115204
unfolding dos_time
dos_time_mono_example =
    dos_time_mono 0x6001 0x5D44 0x6002 0x5D44 refl refl (inr (refl, omega arith))

dos_time_packed_example :
    dos_time (12 * 2048 + 0 * 32 + 1) ((2026 - 1980) * 512 + 10 * 32 + 4)
    ≡ some (timegm 2026 10 4 12 0 2)
unfolding month_days
dos_time_packed_example =
    dos_time_packed 2026 10 4 12 0 1 (omega arith) (omega arith) (omega arith) (omega arith)
      (omega arith) (omega arith) (omega arith) (omega arith)

dos_time_range_example : (315532800 ≤ 1791115202) × (1791115202 ≤ 4354819198)
unfolding dos_time
dos_time_range_example = dos_time_range 0x6001 0x5D44 (omega arith) refl

lfn_checksum_differs_example : lfn_checksum (b'A' ∷ b'1' ∷ []) ≢ lfn_checksum (b'A' ∷ b'2' ∷ [])
lfn_checksum_differs_example =
    lfn_checksum_differs (b'A' ∷ []) b'1' b'2' [] (omega arith) (omega arith) (omega arith)

-- ===== src/Fat/Dirent.antt =====
-- A directory's 32-byte entries in tools/fat16_read.py: `short_name`, `lfn_checksum`, and one round
-- of the generator `Volume.entries`, which joins the parts of long names.
pub mod Checksum
use Prim.Native.Nat.{bit_and, bit_or}
use gopher_metal.Prelude.Text.{Text}
use gopher_metal.Prelude.{
  ℕ, zero, suc, ◌+◌, ◌-◌, ◌*◌, ◌/◌, ◌%◌, ◌^◌, Bool, true, false, not, ◌&&◌, ◌||◌, List, [], ◌∷◌,
  ◌++◌, Option, none, some, map, ltb, leb, ◌==◌, if◌then◌else◌, length,
}
use gopher_metal.Fat.Bytes.{Bytes, le_value, Problem}
use gopher_metal.Fat.Volume.{Kind, is_fat32}
use gopher_metal.Fat.DosTime.{dos_time}

-- b[o:o + n], where the bytes are there
unfoldable pub bytes_from : ℕ → Bytes → ℕ → List ℕ
bytes_from zero b o = []
bytes_from (suc n) b o = b.at o ∷ bytes_from n b (o + 1)

-- The lines that the reader adds to its list of problems, by the place that adds them, with the
-- path and the numbers in the line.
pub data Complaint : Type 0 where
  fats_differ : ℕ → Complaint
  media_byte version_not_0 mirroring_off root_outside fsinfo_signatures free_count hint_outside :
      Complaint
  leaked : List ℕ → Complaint
  part_order missing_parts wrong_checksum high_half : Text → Complaint
  broken_chain : Text → Problem → Complaint
  crossed : Text → ℕ → Text → Complaint
  too_deep dot_target dotdot_target duplicate sized_directory no_directory_cluster :
      Text → Complaint
  empty_with_cluster no_file_cluster no_dots : Text → Complaint
  wrong_length : Text → ℕ → ℕ → Complaint

unfoldable pub keep_char : ℕ → ℕ → List ℕ → List ℕ
keep_char drop c [] = if c == drop then [] else c ∷ []
keep_char drop c (d ∷ ds) = c ∷ d ∷ ds

-- s.rstrip(drop), for one character
unfoldable pub rstrip : ℕ → List ℕ → List ℕ
unfolding keep_char
rstrip drop [] = []
rstrip drop (c ∷ cs) = keep_char drop c (rstrip drop cs)

-- s.lstrip(drop)
unfoldable pub lstrip : ℕ → List ℕ → List ℕ
lstrip drop [] = []
lstrip drop (c ∷ cs) = if c == drop then lstrip drop cs else c ∷ cs

-- `str.lower` on the characters of Latin-1
pub lower : ℕ → ℕ
lower c =
    if (leb b'A' c && leb c b'Z') || (leb 0xC0 c && leb c 0xDE && not (c == 0xD7))
    then c + 32
    else c

restore_e5 : List ℕ → List ℕ
restore_e5 [] = []
restore_e5 (c ∷ cs) = (if c == 0x05 then 0xe5 else c) ∷ cs

with_ext : Text → Text → Text
with_ext b [] = b
with_ext b (c ∷ cs) = b ++ (b'.' ∷ c ∷ cs)

-- `short_name`, of the entry's first 11 bytes as base and extension; Latin-1 decodes to itself.
unfoldable pub short_name : Bytes → ℕ → Text
unfolding bytes_from rstrip lower restore_e5 with_ext
short_name e case =
    let b = restore_e5 (rstrip b' ' (bytes_from 8 e 0)) in
    let x = rstrip b' ' (bytes_from 3 e 8) in
    with_ext (if bit_and case 0x08 == 0 then b else map lower b)
      (if bit_and case 0x10 == 0 then x else map lower x)

-- `s & 1`, `s >> 1` and a byte's `& 0xFF`
pub checksum_step : ℕ → ℕ → ℕ
checksum_step s c = (bit_or (bit_and s 1 * 2 ^ 7) (s / 2) + c) % 256

pub checksum_from : ℕ → List ℕ → ℕ
unfolding checksum_step
checksum_from s [] = s
checksum_from s (c ∷ cs) = checksum_from (checksum_step s c) cs

unfoldable pub lfn_checksum : List ℕ → ℕ
unfolding checksum_from
lfn_checksum = checksum_from 0

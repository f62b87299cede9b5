-- ===== src/Fat/TestImage.antt =====
-- A FAT16 volume of the smallest size, with one file of two clusters.
use gopher_metal.Prelude.Text.{Text}
use gopher_metal.Prelude.{
  ℕ, zero, suc, ◌-◌, ◌*◌, ◌%◌, ◌≡◌, refl, List, [], ◌∷◌, ltb, ◌==◌, if◌then◌else◌,
}
use gopher_metal.Fat.Bytes.{Bytes, le_value, Result, ok, err}
use gopher_metal.Fat.Volume.{Volume, fat16, volume, read_sectors}

-- the byte at `i` of the bytes `bs`, and 0 behind them
unfoldable pub byte_at : List ℕ → ℕ → ℕ
byte_at [] i = 0
byte_at (b ∷ bs) zero = b
byte_at (b ∷ bs) (suc i) = byte_at bs i

abbrev boot_fields : List ℕ
boot_fields = 0 ∷ 2 ∷ 1 ∷ 1 ∷ 0 ∷ 2 ∷ 16 ∷ 0 ∷ 0x17 ∷ 0x10 ∷ 0xF8 ∷ 16 ∷ 0 ∷ []

abbrev boot_byte : ℕ → ℕ
boot_byte i =
    if ltb i 11
    then 0
    else if ltb i 510
    then byte_at boot_fields (i - 11)
    else if i == 510
    then 0x55
    else 0xAA

abbrev fat_bytes : List ℕ
fat_bytes = 0xF8 ∷ 0xFF ∷ 0xFF ∷ 0xFF ∷ 3 ∷ 0 ∷ 0xFF ∷ 0xFF ∷ []

abbrev root_bytes : List ℕ
root_bytes =
    b'H' ∷ b'E' ∷ b'L' ∷ b'L' ∷ b'O' ∷ b' ' ∷ b' ' ∷ b' ' ∷ b'T' ∷ b'X' ∷ b'T' ∷ 0x20 ∷ 0 ∷ 0 ∷ 0
    ∷ 0 ∷ 0 ∷ 0 ∷ 0 ∷ 0 ∷ 0 ∷ 0 ∷ 0 ∷ 0 ∷ 0x21 ∷ 0 ∷ 2 ∷ 0 ∷ 0x58 ∷ 2 ∷ 0 ∷ 0 ∷ []

-- the byte at `i` of the volume
unfoldable pub volume_byte : ℕ → ℕ
unfolding byte_at
volume_byte i =
    if ltb i 512
    then boot_byte i
    else if ltb i 16896
    then byte_at fat_bytes ((i - 512) % 8192)
    else if ltb i 17408
    then byte_at root_bytes (i - 16896)
    else b'x'

abbrev pub image : Bytes
image = record { size = 4119 * 512; at = volume_byte }

abbrev pub same : Text → Text
same t = t

abbrev no_volume : Volume
no_volume = record {
  img = image;
  base = 0;
  spc = 1;
  nfats = 0;
  fat_sectors = 0;
  ext_flags = 0;
  fs_ver = 0;
  root_cluster = 0;
  fsinfo_sector = 0;
  root_sectors = 0;
  fat_start = 0;
  root_start = 0;
  data_start = 0;
  clusters = 0;
  kind = fat16;
  fats = [];
}

unfoldable pub volume_or : Result Volume → Volume
volume_or (ok v) = v
volume_or (err e) = no_volume

-- the volume of the image
unfoldable pub disk : Volume
unfolding volume volume_byte le_value read_sectors volume_or
disk = volume_or (volume image)

pub image-disk : volume image ≡ ok disk
unfolding disk
image-disk = refl

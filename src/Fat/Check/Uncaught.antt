-- ===== src/Fat/Check/Uncaught.antt =====
-- Images at which the reader raises an exception that its command line does not catch.
use gopher_metal.Prelude.Text.{Text}
use gopher_metal.Prelude.{
  ℕ, suc, ◌+◌, ◌*◌, ◌^◌, ◌≤◌, ◌<◌, ◌≡◌, refl, Bool, true, false, ltb, if◌then◌else◌,
}
use gopher_metal.Fat.Bytes.{
  Bytes, unpack, struct_error, overflow_error, index_error, ok, err, ◌>>=◌,
}
use gopher_metal.Fat.Volume.{Volume, volume, holds_at, efi_part}
use gopher_metal.Fat.Volume.Geometry.{volume_no_fat, volume_short_gpt}
use gopher_metal.Fat.Check.{check, verdict, judge}

module _ (casefold : Text → Text) where
  -- A volume whose boot sector gives no FAT mounts, and the check of it ends in an IndexError, which
  -- is neither a verdict nor a `Problem`.
  pub judge_no_fat :
      (img : Bytes) (v : Volume)
      → volume img ≡ ok v
      → v.nfats ≡ 0
      → judge casefold img ≡ err index_error
  unfolding judge
  judge_no_fat img v h none_there =
      rw h (unfold check verdict in rw (volume_no_fat img v h none_there) refl)

  verdict_raised :
      (near : Bool)
      → verdict (err (if near then struct_error else overflow_error) >>= check casefold)
        ≡ err (if near then struct_error else overflow_error)
  unfolding verdict
  verdict_raised true = refl
  verdict_raised false = refl

  -- A GPT whose first entry is not within the image ends the check in a struct.error, where its partition's
  -- first sector is at an offset below 2^63, and otherwise in an OverflowError.
  pub judge_short_gpt :
      (img : Bytes) (lba n size : ℕ)
      → 1024 ≤ img.size
      → holds_at efi_part img 512 ≡ true
      → unpack 8 img 584 ≡ ok lba
      → unpack 4 img 592 ≡ ok (suc n)
      → unpack 4 img 596 ≡ ok size
      → img.size < lba * 512 + 40
      → judge casefold img
        ≡ err (if ltb (lba * 512 + 32) (2 ^ 63) then struct_error else overflow_error)
  unfolding judge
  judge_short_gpt img lba n size big mark a b c short =
      rw (volume_short_gpt img lba n size big mark a b c short)
        (verdict_raised (ltb (lba * 512 + 32) (2 ^ 63)))

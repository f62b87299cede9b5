-- ===== src/Copy/Tests.antt =====
-- A copy of the one file of a small volume, and the theorems at it.
use gopher_metal.Prelude.Text.{text_eq, text_in}
use gopher_metal.Prelude.{ℕ, ◌+◌, ◌*◌, ◌-◌, ◌≡◌, refl, true, false, All, [], ◌∷◌}
use gopher_metal.Fat.Bytes.{Bytes, Result, ok, err, le_value, same_below}
use gopher_metal.Fat.Volume.{Volume, volume, fat, read_sectors, cluster}
use gopher_metal.Fat.Chain.{chain}
use gopher_metal.Fat.Dirent.{short_name}
use gopher_metal.Fat.Entries.{entry_step}
use gopher_metal.Fat.DosTime.{dos_time}
use gopher_metal.Fat.Walk.{Walk, walk, join_clusters, owner_of, append_bytes}
use gopher_metal.Fat.Check.{check}
use gopher_metal.Fat.Check.Sound.{IsConsistent}
use gopher_metal.Fat.TestImage.{byte_at, image, same, volume_byte, disk}
use gopher_metal.Copy.Compare.{
  Source, on_volume, find_item, mtime_of, compare, content, file_content,
}
use gopher_metal.Copy.Compare.Content.{IsFront, content-IsFront}
use gopher_metal.Copy.Compare.Sound.{Agrees, compare-Agrees}

-- a digest for the tests
abbrev digest : Bytes → ℕ
digest b = b.size * 256 + b.at (b.size - 1)

abbrev hello : Source
hello = record {
  rel = b'/' ∷ b'H' ∷ b'E' ∷ b'L' ∷ b'L' ∷ b'O' ∷ b'.' ∷ b'T' ∷ b'X' ∷ b'T' ∷ [];
  is_dir = false;
  size = 600;
  digest = 600 * 256 + b'x';
  mtime = 315532801500000000;
}

no_findings : compare same digest (hello ∷ []) image ≡ ok []
unfolding compare file_content check walk volume volume_byte byte_at le_value fat chain read_sectors
    same_below short_name entry_step dos_time join_clusters owner_of text_eq text_in cluster
    find_item mtime_of append_bytes
no_findings = refl

compare-Agrees_example :
    (v : Volume) × (w : Walk) × (volume image ≡ ok v)
    × IsConsistent same v w
    × (u : Walk) × (walk same v [] ≡ ok u)
    × All (Agrees digest v u (on_volume [] u.found)) (hello ∷ [])
    × All (λ f. text_in f.path (hello.rel ∷ []) ≡ true) (on_volume [] u.found)
compare-Agrees_example = compare-Agrees same digest (hello ∷ []) image no_findings

bytes_or : Result Bytes → Bytes
bytes_or (ok b) = b
bytes_or (err e) = image

-- the two clusters of the file
clusters : Bytes
unfolding bytes_or join_clusters
clusters = bytes_or (join_clusters disk (2 ∷ 3 ∷ []))

content-IsFront_example :
    (b : Bytes) × (content disk 600 (2 ∷ 3 ∷ []) ≡ ok b) × IsFront 600 clusters b
unfolding clusters join_clusters disk cluster read_sectors volume
content-IsFront_example = content-IsFront disk 600 (2 ∷ 3 ∷ []) clusters refl

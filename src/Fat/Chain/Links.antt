-- ===== src/Fat/Chain/Links.antt =====
-- The chains that a FAT holds, as a relation.
use gopher_metal.Prelude.{ℕ, ◌≤◌, ◌<◌, ◌≡◌, ◌≢◌, List, [], ◌∷◌}
use gopher_metal.Fat.Bytes.{ok}
use gopher_metal.Fat.Volume.{Volume, fat, eoc, bad, max_cluster}

-- `Links v c cs`: from cluster `c` on, the entries of the FAT link the clusters `cs`, all of them in
-- the data region, and the entry of the last one ends the chain.
pub data Links (v : Volume) : ℕ → List ℕ → Type 0 where
  last : {c n : ℕ} → 2 ≤ c → c ≤ max_cluster v → fat v c ≡ ok n → eoc v ≤ n → Links v c (c ∷ [])
  link :
      {c n : ℕ} {cs : List ℕ}
      → 2 ≤ c
      → c ≤ max_cluster v
      → fat v c ≡ ok n
      → n < eoc v
      → n ≢ 0
      → n ≢ bad v
      → Links v n cs
      → Links v c (c ∷ cs)

-- ===== src/Fat/Chain.antt =====
-- `Volume.chain` of tools/fat16_read.py: the walk of a file's clusters through the FAT.
pub mod Links
pub mod Exact
pub mod Faults
use gopher_metal.Prelude.{
  ℕ, zero, suc, ◌+◌, Bool, ◌||◌, List, [], ◌∷◌, ◌++◌, ltb, leb, ◌==◌, if◌then◌else◌, contains,
}
use gopher_metal.Fat.Bytes.{
  outside, loops, runs_free, runs_bad, problem, no_fuel, Result, ok, err, ◌>>=◌,
}
use gopher_metal.Fat.Volume.{Volume, fat, eoc, bad, max_cluster}

-- c < 2 or c > self.max_cluster
abbrev pub is_outside : Volume → ℕ → Bool
is_outside v c = ltb c 2 || ltb (max_cluster v) c

-- `while True`, with `fuel`. The set `seen` always holds the clusters of the list `out`.
pub chain_from : ℕ → Volume → List ℕ → ℕ → Result (List ℕ)
chain_from zero v out c = err no_fuel
chain_from (suc fuel) v out c =
    if is_outside v c
    then err (problem (outside c))
    else if contains out c
    then err (problem (loops c))
    else do
      nxt ← fat v c
      let out' = out ++ c ∷ []
      let rest = chain_from fuel v out' nxt
      if leb (eoc v) nxt
          then ok out'
          else if nxt == 0
          then err (problem (runs_free c))
          else if nxt == bad v
          then err (problem (runs_bad c))
          else rest

-- More rounds than the volume has clusters: each round but the last adds a new one of them.
unfoldable pub chain : Volume → ℕ → Result (List ℕ)
unfolding chain_from
chain v first = chain_from (max_cluster v + 2) v [] first

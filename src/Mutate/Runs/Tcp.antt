-- ===== src/Mutate/Runs/Tcp.antt =====
-- tools/mutate_tcp.py: `where` and `main`.
pub mod Judged
use gopher_metal.Prelude.{
  ℕ, ◌+◌, ◌≡◌, Bool, true, false, not, ◌&&◌, ◌||◌, List, [], ◌∷◌, map, Option, none, some, ltb,
  ◌==◌, if◌then◌else◌,
}
use gopher_metal.Prelude.Text.{Text, codes, text_in, starts_with}
use gopher_metal.Mutate.Apply.{apply}
use gopher_metal.Mutate.Runs.{Files, Build, Ended, ended, run_rows}

-- a row of MUTANTS
pub record Mutant : Type 0 where
  pub name : Text
  pub what : Text
  pub old : Text
  pub new : Text
  pub nth : Option ℕ

-- read_targets()
unfoldable pub read_targets : List Text → Files → List (Text × Text)
read_targets targets fs = map (λ t. (t, fs t)) targets

found_in : Text → Option Text → List (Text × Text) → List (Text × Text)
found_in t none rest = rest
found_in t (some m) rest = (t, m) ∷ rest

-- the targets that the mutant applies to
unfoldable pub all_found : Mutant → List (Text × Text) → List (Text × Text)
unfolding found_in
all_found row [] = []
all_found row ((t, source) ∷ rest) =
    found_in t (apply source row.old row.new row.nth) (all_found row rest)

only_one : List (Text × Text) → Option (Text × Text)
only_one (hit ∷ []) = some hit
only_one _ = none

-- `where`; the word is one of the language's
unfoldable pub where_is : List (Text × Text) → Mutant → Option (Text × Text)
unfolding only_one
where_is sources row = only_one (all_found row sources)

-- if wanted and name not in wanted: continue
unfoldable pub chosen : List Text → List Mutant → List Mutant
chosen wanted [] = []
chosen [] (row ∷ rows) = row ∷ rows
chosen (w ∷ ws) (row ∷ rows) =
    let rest = chosen (w ∷ ws) rows in if text_in row.name (w ∷ ws) then row ∷ rest else rest

-- `main` behind its arguments; the sources are read once
unfoldable pub run :
    Build → Files → List Text → (List Text → Files → Text) → List Mutant → Files → Ended Mutant
run build head targets dirty rows fs =
    run_rows build head targets dirty (λ now row. where_is (read_targets targets fs) row) rows fs

-- [a for a in argv[1:] if not a.startswith("-")]
unfoldable pub wanted_of : List Text → List Text
wanted_of [] = []
wanted_of (a ∷ rest) = if starts_with (codes "-") a then wanted_of rest else a ∷ wanted_of rest

-- w not in names, for one of the wanted
any_unknown : List Text → List Text → Bool
any_unknown names [] = false
any_unknown names (w ∷ ws) = not (text_in w names) || any_unknown names ws

stale_rows : List (Text × Text) → List Mutant → ℕ
stale_rows sources [] = 0
stale_rows sources (row ∷ rows) =
    elim (where_is sources row) [ none ↦ 1 | some hit ↦ 0 ] + stale_rows sources rows

-- `main`, of the table and the arguments behind the name of the program
unfoldable pub main :
    Build
    → Files
    → List Text
    → (List Text → Files → Text)
    → List Mutant
    → List Text
    → Files
    → Ended Mutant
unfolding wanted_of any_unknown chosen stale_rows ended
main build head targets dirty table args fs =
    if text_in (codes "--list") args
    then ended (some 0) fs
    else if text_in (codes "--where") args
    then ended (if stale_rows (read_targets targets fs) table == 0 then some 0 else some 1) fs
    else if any_unknown (map (λ row. row.name) table) (wanted_of args)
    then ended (some 2) fs
    else run build head targets dirty (chosen (wanted_of args) table) fs

-- ===== src/Mutate/Runs/Guards.antt =====
-- tools/mutate_guards.py: `run` and `main`.
pub mod Judged
use gopher_metal.Prelude.{
  ℕ, ◌≡◌, Bool, true, false, ◌&&◌, ◌||◌, List, [], ◌∷◌, ◌++◌, map, Option, none, some, ◌==◌,
  if◌then◌else◌,
}
use gopher_metal.Prelude.Text.{Text, codes, text_eq, text_in}
use gopher_metal.Mutate.Apply.{count_text, replace_at}
use gopher_metal.Mutate.Runs.{Files, Build, Ended, ended, run_rows}

-- a row of MUTANTS
pub record Guard : Type 0 where
  pub file : Text
  pub name : Text
  pub old : Text
  pub new : Text

-- `path_of`
pub path_of : Text → Text
path_of file = codes "src/" ++ (file ++ codes ".zig")

-- the files that it would touch; a set of them and its order are the same to git
unfoldable pub paths_of : List Guard → List Text
paths_of rows = map (λ row. path_of row.file) rows

-- a path with the new text
at_path : Text → Option Text → Option (Text × Text)
at_path path none = none
at_path path (some text) = some (path, text)

-- the file that the row changes; of a text that stands once, `replace` replaces the first
unfoldable pub hit : Files → Guard → Option (Text × Text)
unfolding at_path
hit fs row =
    let text = fs (path_of row.file) in
    if count_text row.old text == 1
    then at_path (path_of row.file) (replace_at row.old row.new 0 text)
    else none

-- `run`
unfoldable pub run : Build → Files → (List Text → Files → Text) → List Guard → Files → Ended Guard
unfolding paths_of hit
run build head dirty rows fs = run_rows build head (paths_of rows) dirty hit rows fs

-- m[0] in asked or m[1] in asked or f"{m[0]}:{m[1]}" in asked
is_asked : List Text → Guard → Bool
is_asked asked row =
    text_in row.file asked
    || text_in row.name asked
    || text_in (row.file ++ (codes ":" ++ row.name)) asked

-- [m for m in MUTANTS if not asked or ...]
unfoldable pub chosen : List Text → List Guard → List Guard
unfolding is_asked
chosen asked [] = []
chosen [] (row ∷ rows) = row ∷ rows
chosen (a ∷ others) (row ∷ rows) =
    let rest = chosen (a ∷ others) rows in if is_asked (a ∷ others) row then row ∷ rest else rest

is_list : List Text → Bool
is_list (a ∷ []) = text_eq a (codes "--list")
is_list _ = false

run_chosen :
    Build → Files → (List Text → Files → Text) → List Text → List Guard → Files → Ended Guard
unfolding ended
run_chosen build head dirty (a ∷ others) [] fs = ended (some 2) fs
run_chosen build head dirty asked rows fs = run build head dirty rows fs

-- `main`, of the table and the arguments behind the name of the program
unfoldable pub main :
    Build → Files → (List Text → Files → Text) → List Guard → List Text → Files → Ended Guard
unfolding is_list run_chosen ended
main build head dirty table asked fs =
    if is_list asked
    then ended (some 0) fs
    else run_chosen build head dirty asked (chosen asked table) fs

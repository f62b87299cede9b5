-- ===== src/Mutate/Runs/Guards/Judged.antt =====
-- mutate_guards.py: its rows change the files of its paths only, so that what holds of a run holds of it.
use gopher_metal.Prelude.{
  ◌≡◌, ◌↔◌, refl, Bool, true, false, List, [], ◌∷◌, Option, none, some, Bool-cases, inl, inr, arith,
  ◌==◌, if◌then◌else◌, All,
}
use gopher_metal.Prelude.Text.{Text}
use gopher_metal.Verdicts.Texts.{has_word}
use gopher_metal.Mutate.Verdict.{survived}
use gopher_metal.Mutate.Apply.{apply, replace_at, count_text}
use gopher_metal.Mutate.Runs.{Files, Build, Ended, ended, judged}
use gopher_metal.Mutate.Runs.Restored.{IsClean, Hits, AllKilled}
use gopher_metal.Mutate.Runs.Judged.{judge_of, run_rows-files, run_rows_iff}
use gopher_metal.Mutate.Runs.Guards.{
  Guard, path_of, paths_of, at_path, hit, run, main, is_list, run_chosen, chosen,
}

at_path-Hits :
    (head fs : Files) (path : Text) (o : Option Text)
    → fs path ≡ head path
    → Hits head fs (at_path path o)
unfolding at_path
at_path-Hits head fs path none h = tt
at_path-Hits head fs path (some text) h = h

if-Hits :
    (head fs : Files) (once : Bool) (o : Option (Text × Text))
    → Hits head fs o
    → Hits head fs (if once then o else none)
if-Hits head fs true o h = h
if-Hits head fs false o h = tt

paths-Hits :
    (head fs : Files) (rows : List Guard)
    → IsClean head (paths_of rows) fs
    → All (λ row. Hits head fs (hit fs row)) rows
unfolding paths_of hit
paths-Hits head fs [] h = tt
paths-Hits head fs (row ∷ rows) h =
    let text = fs (path_of row.file) in
    (
      if-Hits head fs (count_text row.old text == 1)
          (at_path (path_of row.file) (replace_at row.old row.new 0 text))
          (at_path-Hits head fs (path_of row.file) (replace_at row.old row.new 0 text) h.0),
      paths-Hits head fs rows h.1,
    )

at_path-some :
    (path p m : Text) (o : Option Text) → at_path path o ≡ some (p, m) → (path ≡ p) × (o ≡ some m)
unfolding at_path
at_path-some path p m none h = absurd (ground arith)
at_path-some path p m (some t) h = (ground arith, ground arith)

-- A row that hits is one that `apply` has a text for.
pub hit-applied :
    (fs : Files) (row : Guard) (p m : Text)
    → hit fs row ≡ some (p, m)
    → (path_of row.file ≡ p) × (apply (fs (path_of row.file)) row.old row.new none ≡ some m)
unfolding hit apply
hit-applied fs row p m h = elim (Bool-cases (count_text row.old (fs (path_of row.file)) == 1)) [
  | inl e ↦
      let (a, b) =
        at_path-some (path_of row.file) p m (replace_at row.old row.new 0 (fs (path_of row.file)))
          (ground (arith, e, h)) in
      (a, simp (e, b))
  | inr e ↦ absurd (ground (arith, e, h))
]

guards_run-files :
    (build : Build) (head : Files) (dirty : List Text → Files → Text) (fs : Files)
    → ((paths : List Text) → has_word (dirty paths fs) ≡ false → IsClean head paths fs)
    → (rows : List Guard) → Ended.files (run build head dirty rows fs) ≡ fs
unfolding run
guards_run-files build head dirty fs git_status rows =
    run_rows-files build head (paths_of rows) hit dirty rows fs (git_status (paths_of rows))
      (paths-Hits head fs rows)

chosen-files :
    (build : Build) (head : Files) (dirty : List Text → Files → Text) (fs : Files)
    → ((paths : List Text) → has_word (dirty paths fs) ≡ false → IsClean head paths fs)
    → (asked : List Text) (rows : List Guard)
    → Ended.files (run_chosen build head dirty asked rows fs) ≡ fs
unfolding run_chosen ended
chosen-files build head dirty fs git_status [] rows =
    guards_run-files build head dirty fs git_status rows
chosen-files build head dirty fs git_status (a ∷ others) [] = refl
chosen-files build head dirty fs git_status (a ∷ others) (row ∷ rows) =
    guards_run-files build head dirty fs git_status (row ∷ rows)

-- Where `git status` prints nothing only if the files are those of the commit, `main` leaves every file
-- as it was, whatever the arguments, the builds and the interrupts.
pub guards-files :
    (build : Build) (head : Files) (dirty : List Text → Files → Text) (fs : Files)
    → ((paths : List Text) → has_word (dirty paths fs) ≡ false → IsClean head paths fs)
    → (table : List Guard) (asked : List Text)
    → Ended.files (main build head dirty table asked fs) ≡ fs
unfolding main ended
guards-files build head dirty fs git_status table asked = elim (Bool-cases (is_list asked)) [
  | inl e ↦ simp e
  | inr e ↦
      let kept = chosen-files build head dirty fs git_status asked (chosen asked table) in
      simp (e, kept)
]

-- A run on the rows ends with status 0 exactly where nothing of their files is uncommitted, the unmutated
-- tree passes, and each row, applied on its own, is killed.
pub guards_iff :
    (build : Build) (head : Files) (dirty : List Text → Files → Text) (fs : Files)
    → ((paths : List Text) → has_word (dirty paths fs) ≡ false → IsClean head paths fs)
    → (rows : List Guard)
    → (Ended.status (run build head dirty rows fs) ≡ some 0) ↔ (
        (has_word (dirty (paths_of rows) fs) ≡ false)
        × (judged (build fs) ≡ some survived)
        × AllKilled (judge_of build hit fs) rows)
unfolding run
guards_iff build head dirty fs git_status rows =
    run_rows_iff build head (paths_of rows) hit dirty rows fs (git_status (paths_of rows))
      (paths-Hits head fs rows)

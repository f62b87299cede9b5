-- ===== src/Mutate/Runs/Tcp/Judged.antt =====
-- mutate_tcp.py: its rows change its targets only, so that what holds of a run holds of it.
use gopher_metal.Prelude.{◌≡◌, ◌↔◌, false, List, [], ◌∷◌, Option, none, some, arith, All}
use gopher_metal.Prelude.Text.{Text}
use gopher_metal.Verdicts.Texts.{has_word}
use gopher_metal.Mutate.Verdict.{survived}
use gopher_metal.Mutate.Apply.{apply}
use gopher_metal.Mutate.Runs.{Files, Build, Ended, ended, judged}
use gopher_metal.Mutate.Runs.Restored.{IsClean, Hits, AllKilled, All-each}
use gopher_metal.Mutate.Runs.Judged.{judge_of, run_rows-files, run_rows_iff}
use gopher_metal.Mutate.Runs.Tcp.{
  Mutant, read_targets, found_in, all_found, only_one, where_is, run, main, wanted_of, chosen,
}

put_found :
    (head fs : Files) (t : Text) (m : Option Text) (rest : List (Text × Text))
    → fs t ≡ head t
    → All (λ hit. fs hit.0 ≡ head hit.0) rest
    → All (λ hit. fs hit.0 ≡ head hit.0) (found_in t m rest)
unfolding found_in
put_found head fs t none rest h k = k
put_found head fs t (some m) rest h k = (h, k)

only_one-Hits :
    (head fs : Files) (found : List (Text × Text))
    → All (λ hit. fs hit.0 ≡ head hit.0) found
    → Hits head fs (only_one found)
unfolding only_one
only_one-Hits head fs [] h = tt
only_one-Hits head fs (hit ∷ []) h = h.0
only_one-Hits head fs (hit ∷ other ∷ rest) h = tt

-- Each target that a mutant is found in is a file of the commit.
all_found-IsClean :
    (row : Mutant) (head fs : Files) (targets : List Text)
    → IsClean head targets fs
    → All (λ hit. fs hit.0 ≡ head hit.0) (all_found row (read_targets targets fs))
unfolding all_found read_targets found_in
all_found-IsClean row head fs [] h = tt
all_found-IsClean row head fs (t ∷ ts) h =
    put_found head fs t (apply (fs t) row.old row.new row.nth) (all_found row (read_targets ts fs))
      h.0 (all_found-IsClean row head fs ts h.1)

targets-Hits :
    (head fs : Files) (targets : List Text) (rows : List Mutant)
    → IsClean head targets fs
    → All (λ row. Hits head fs (where_is (read_targets targets fs) row)) rows
unfolding where_is
targets-Hits head fs targets rows h =
    All-each (λ row. Hits head fs (where_is (read_targets targets fs) row))
      (λ row.
        only_one-Hits head fs (all_found row (read_targets targets fs))
          (all_found-IsClean row head fs targets h))
      rows

-- Where `git status` prints nothing only if the targets are those of the commit, `main` leaves every file
-- as it was, whatever the arguments, the builds and the interrupts.
pub tcp-files :
    (build : Build) (head : Files) (targets : List Text) (dirty : List Text → Files → Text)
    (fs : Files)
    → (has_word (dirty targets fs) ≡ false → IsClean head targets fs)
    → (table : List Mutant) (args : List Text)
    → Ended.files (main build head targets dirty table args fs) ≡ fs
unfolding main run ended
tcp-files build head targets dirty fs git_status table args =
    let rows = chosen (wanted_of args) table in
    let kept =
      run_rows-files build head targets (λ now row. where_is (read_targets targets fs) row) dirty
        rows fs git_status (targets-Hits head fs targets rows) in
    ground arith

-- A run on the rows ends with status 0 exactly where nothing of the targets is uncommitted, the unmutated
-- tree passes, and each row, applied on its own, is killed.
pub tcp_iff :
    (build : Build) (head : Files) (targets : List Text) (dirty : List Text → Files → Text)
    (fs : Files)
    → (has_word (dirty targets fs) ≡ false → IsClean head targets fs)
    → (rows : List Mutant)
    → (Ended.status (run build head targets dirty rows fs) ≡ some 0) ↔ (
        (has_word (dirty targets fs) ≡ false)
        × (judged (build fs) ≡ some survived)
        × AllKilled (judge_of build (λ now row. where_is (read_targets targets fs) row) fs) rows)
unfolding run
tcp_iff build head targets dirty fs git_status rows =
    run_rows_iff build head targets (λ now row. where_is (read_targets targets fs) row) dirty rows
      fs git_status (targets-Hits head fs targets rows)

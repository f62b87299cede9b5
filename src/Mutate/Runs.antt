-- ===== src/Mutate/Runs.antt =====
-- What the two tools share: the files of the checkout, a build of them, `git checkout`, and the loop over
-- the rows of a table with what its `finally` puts back.
pub mod Restored
pub mod Judged
pub mod Tcp
pub mod Guards
use gopher_metal.Prelude.{
  ℕ, ◌+◌, ◌≡◌, Bool, true, false, ◌&&◌, List, [], ◌∷◌, Option, none, some, ◌==◌, if◌then◌else◌,
}
use gopher_metal.Prelude.Text.{Text, text_eq, text_in}
use gopher_metal.Verdicts.Texts.{has_word}
use gopher_metal.Mutate.Verdict.{
  Exit, Outcome, killed, survived, not_compiled, timed_out, unclassified, stale, verdict,
}

-- the files of the checkout, each path with its text
abbrev pub Files : Type 0
Files = Text → Text

-- `mutate_run.build`: the exit and the output, or nothing where an interrupt is raised
abbrev pub Build : Type 0
Build = Files → Option (Exit × Text)

-- open(p, "w").write(text)
unfoldable pub write : Text → Text → Files → Files
write path text fs p = if text_eq p path then text else fs p

-- git checkout rev -- paths, of a commit with the files `head`
unfoldable pub checkout : Files → List Text → Files → Files
checkout head paths fs p = if text_in p paths then head p else fs p

-- verdict(code, out) of a build
unfoldable pub judged : Option (Exit × Text) → Option Outcome
judged none = none
judged (some (code, out)) = some (verdict code out)

-- A file that a row changes, with its new text: judged, and put back whatever the build raised.
unfoldable pub try_mutant : Build → Files → Files → Option (Text × Text) → Option Outcome × Files
unfolding judged write checkout
try_mutant build head fs none = (some stale, fs)
try_mutant build head fs (some (target, mutated)) = (
  judged (build (write target mutated fs)),
  checkout head (target ∷ []) (write target mutated fs),
)

-- The rows that were judged, whether none of them was interrupted, and the files behind the loop.
pub record Tried {ℓ} (Row : Type ℓ) : Type ℓ where
  pub results : List (Row × Outcome)
  pub finished : Bool
  pub files : Files

-- a number for each word, to tell them apart
abbrev pub word : Outcome → ℕ
word killed = 0
word survived = 1
word not_compiled = 2
word timed_out = 3
word unclassified = 4
word stale = 5

module _ {ℓ} {Row : Type ℓ} where
  unfoldable pub go_on : Row → Option Outcome → Files → Tried Row → Tried Row
  go_on row none fs rest = record { results = []; finished = false; files = fs }
  go_on row (some o) fs rest = record {
    results = (row, o) ∷ rest.results;
    finished = rest.finished;
    files = rest.files;
  }

  -- for row in rows: ...
  unfoldable pub try_rows : (Files → Row → Option Outcome × Files) → List Row → Files → Tried Row
  unfolding go_on
  try_rows step [] fs = record { results = []; finished = true; files = fs }
  try_rows step (row ∷ rows) fs =
      let (o, after) = step fs row in go_on row o after (try_rows step rows after)

  -- [r for r in results if r[1] == outcome], counted
  unfoldable pub tally : Outcome → List (Row × Outcome) → ℕ
  tally outcome [] = 0
  tally outcome ((row, o) ∷ rest) = (if word o == word outcome then 1 else 0) + tally outcome rest

  -- return 1 if survived or stale or broken or hung or odd else 0
  unfoldable pub final_status : List (Row × Outcome) → ℕ
  final_status results =
      if tally survived results == 0
        && tally stale results == 0
        && tally not_compiled results == 0
        && tally timed_out results == 0
        && tally unclassified results == 0
      then 0
      else 1

-- The status that the process ends with, or nothing where an interrupt ends it, with the rows that were
-- judged and the files behind it.
pub record Ended {ℓ} (Row : Type ℓ) : Type ℓ where
  pub status : Option ℕ
  pub results : List (Row × Outcome)
  pub files : Files

module _ {ℓ} {Row : Type ℓ} where
  unfoldable pub ended : Option ℕ → Files → Ended Row
  ended status fs = record { status = status; results = []; files = fs }

  -- behind the loop, with the outer `finally`
  unfoldable pub after_rows : Files → List Text → Tried Row → Ended Row
  unfolding final_status
  after_rows head paths tried = record {
    status = if tried.finished then some (final_status tried.results) else none;
    results = tried.results;
    files = checkout head paths tried.files;
  }

  -- behind the build of the unmutated tree; `hit` is of the files now
  unfoldable pub after_unmutated :
      Build
      → Files
      → List Text
      → (Files → Row → Option (Text × Text))
      → List Row
      → Files
      → Option Outcome
      → Ended Row
  unfolding after_rows ended
  after_unmutated build head paths hit rows fs none = ended none fs
  after_unmutated build head paths hit rows fs (some o) =
      if word o == word survived
      then after_rows head paths
          (try_rows (λ now row. try_mutant build head now (hit now row)) rows fs)
      else ended (some 2) fs

  -- A run on the rows: `dirty` is what `git status` prints for the paths.
  unfoldable pub run_rows :
      Build
      → Files
      → List Text
      → (List Text → Files → Text)
      → (Files → Row → Option (Text × Text))
      → List Row
      → Files
      → Ended Row
  unfolding after_unmutated
  run_rows build head paths dirty hit rows fs =
      if has_word (dirty paths fs)
      then ended (some 2) fs
      else after_unmutated build head paths hit rows fs (judged (build fs))

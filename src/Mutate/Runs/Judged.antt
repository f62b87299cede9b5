-- ===== src/Mutate/Runs/Judged.antt =====
-- A run of either tool: the files that it leaves behind, and when it ends with status 0.
use gopher_metal.Prelude.{
  ◌≡◌, ◌↔◌, refl, sym, ap, ◌∙◌, false, List, [], ◌∷◌, Option, none, some, Bool-cases, inl, inr,
  arith, ◌==◌, All,
}
use gopher_metal.Prelude.Text.{Text}
use gopher_metal.Verdicts.Texts.{has_word}
use gopher_metal.Mutate.Verdict.{
  Outcome, killed, survived, not_compiled, timed_out, unclassified, stale,
}
use gopher_metal.Mutate.Runs.{
  Files, Build, Ended, ended, judged, try_mutant, word, after_rows, after_unmutated, run_rows,
}
use gopher_metal.Mutate.Runs.Restored.{
  IsClean, Hits, alone, AllKilled, status_of, status_of-IsZero, status_of-AllKilled, until,
  checkout-IsClean, try_mutant-alone, try_rows-until,
}

word_survived : (o : Outcome) → word o ≡ word survived → o ≡ survived
word_survived killed h = absurd (ground arith)
word_survived survived h = refl
word_survived not_compiled h = absurd (ground arith)
word_survived timed_out h = absurd (ground arith)
word_survived unclassified h = absurd (ground arith)
word_survived stale h = absurd (ground arith)

-- What `zig build test` says of the files with the row's one change, and nothing else.
pub judge_of :
    {Row : Type 0} → Build → (Files → Row → Option (Text × Text)) → Files → Row → Option Outcome
judge_of build hit fs row = alone build fs (hit fs row)

module _ {Row : Type 0} (build : Build) (head : Files) (paths : List Text)
    (hit : Files → Row → Option (Text × Text)) where
  each_alone :
      (fs : Files) (rows : List Row)
      → All (λ row. Hits head fs (hit fs row)) rows
      → All (λ row. try_mutant build head fs (hit fs row) ≡ (judge_of build hit fs row, fs)) rows
  unfolding judge_of
  each_alone fs [] h = tt
  each_alone fs (row ∷ rows) h =
      (try_mutant-alone build head fs (hit fs row) h.0, each_alone fs rows h.1)

  judge_rows :
      (fs : Files) (rows : List Row) (o : Outcome)
      → IsClean head paths fs
      → All (λ row. Hits head fs (hit fs row)) rows
      → word o ≡ word survived
      → after_unmutated build head paths hit rows fs (some o) ≡ record {
        status = status_of (judge_of build hit fs) rows;
        results = until (judge_of build hit fs) rows;
        files = fs;
      }
  unfolding after_unmutated after_rows
  judge_rows fs rows o h k e =
      let j =
        try_rows-until (λ now row. try_mutant build head now (hit now row)) (judge_of build hit fs)
          fs rows (each_alone fs rows k) in
      let c = checkout-IsClean head fs paths h in simp (e, j, c)

  unmutated-files :
      (rows : List Row) (fs : Files) (o : Option Outcome)
      → IsClean head paths fs
      → All (λ row. Hits head fs (hit fs row)) rows
      → Ended.files (after_unmutated build head paths hit rows fs o) ≡ fs
  unmutated-files rows fs none h k = unfold after_unmutated ended in refl
  unmutated-files rows fs (some o) h k = elim (Bool-cases (word o == word survived)) [
    | inl e ↦ ap Ended.files (judge_rows fs rows o h k (ground arith))
    | inr e ↦ unfold after_unmutated ended in simp e
  ]

  unmutated-killed :
      (rows : List Row) (fs : Files) (o : Option Outcome)
      → IsClean head paths fs
      → All (λ row. Hits head fs (hit fs row)) rows
      → Ended.status (after_unmutated build head paths hit rows fs o) ≡ some 0
      → (o ≡ some survived) × AllKilled (judge_of build hit fs) rows
  unmutated-killed rows fs none h k e = absurd (unfold after_unmutated ended in ground (arith, e))
  unmutated-killed rows fs (some o) h k e = elim (Bool-cases (word o == word survived)) [
    | inl green ↦
        let same : word o ≡ word survived = ground arith in
        (
          ap some (word_survived o same),
          status_of-AllKilled (judge_of build hit fs) rows
              (sym (ap Ended.status (judge_rows fs rows o h k same)) ∙ e),
        )
    | inr red ↦ absurd (unfold after_unmutated ended in ground (arith, e, red))
  ]

  unmutated-green :
      (rows : List Row) (fs : Files)
      → IsClean head paths fs
      → All (λ row. Hits head fs (hit fs row)) rows
      → AllKilled (judge_of build hit fs) rows
      → Ended.status (after_unmutated build head paths hit rows fs (some survived)) ≡ some 0
  unmutated-green rows fs h k kills =
      ap Ended.status (judge_rows fs rows survived h k refl)
      ∙ status_of-IsZero (judge_of build hit fs) rows kills

  -- With a `git status` that prints nothing only where the files at the paths are those of the commit,
  -- and rows that change files at the paths only:
  module _ (dirty : List Text → Files → Text) (rows : List Row) (fs : Files)
      (git_status : has_word (dirty paths fs) ≡ false → IsClean head paths fs)
      (hits : IsClean head paths fs → All (λ row. Hits head fs (hit fs row)) rows) where
    -- The run leaves every file as it was, interrupted or not.
    pub run_rows-files : Ended.files (run_rows build head paths dirty hit rows fs) ≡ fs
    unfolding run_rows ended
    run_rows-files = elim (Bool-cases (has_word (dirty paths fs))) [
      | inl e ↦ simp e
      | inr e ↦
          let clean = git_status e in
          let kept = unmutated-files rows fs (judged (build fs)) clean (hits clean) in
          simp (e, kept)
    ]

    -- The status 0: nothing uncommitted at the paths, an unmutated tree that passes, and every row killed
    -- on its own.
    pub run_rows_iff : (Ended.status (run_rows build head paths dirty hit rows fs) ≡ some 0) ↔ (
        (has_word (dirty paths fs) ≡ false)
        × (judged (build fs) ≡ some survived)
        × AllKilled (judge_of build hit fs) rows)
    unfolding run_rows ended
    run_rows_iff = elim (Bool-cases (has_word (dirty paths fs))) [
      | inl e ↦ (λ h. absurd (ground (arith, e, h)), λ h. absurd (ground (arith, e, h.0)))
      | inr e ↦
          let clean = git_status e in
          (
            λ h.
                (let (green, kills) =
                    unmutated-killed rows fs (judged (build fs)) clean (hits clean)
                      (ground (arith, e, h)) in
                  (e, green, kills)),
            λ h.
                (let green = unmutated-green rows fs clean (hits clean) h.2 in
                  let k = h.1 in simp (e, k, green)),
          )
    ]

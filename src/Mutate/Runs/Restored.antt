-- ===== src/Mutate/Runs/Restored.antt =====
-- The files behind the loop are those before it, so that each row is judged on those files.
use gopher_metal.Prelude.{
  ℕ, ◌≡◌, ◌↔◌, refl, sym, ap, ◌∙◌, Bool, true, false, List, [], ◌∷◌, Option, none, some, Bool-cases,
  Option-cases, inl, inr, arith, if◌then◌else◌, All,
}
use cubical.Cubical.Foundations.Prelude.{fun_ext}
use gopher_metal.Prelude.Text.{Text, text_eq, text_in, text_eq_sound}
use gopher_metal.Mutate.Verdict.{
  Outcome, killed, survived, not_compiled, timed_out, unclassified, stale,
}
use gopher_metal.Mutate.Runs.{
  Files, Build, write, checkout, judged, try_mutant, go_on, try_rows, tally, final_status,
}

-- The files at the paths are those of the commit.
abbrev pub IsClean : Files → List Text → Files → Type 0
IsClean head paths fs = All (λ p. fs p ≡ head p) paths

IsClean-at :
    (head fs : Files) (paths : List Text) (p : Text)
    → IsClean head paths fs
    → text_in p paths ≡ true
    → fs p ≡ head p
unfolding text_in
IsClean-at head fs [] p h e = absurd (ground arith)
IsClean-at head fs (q ∷ qs) p h e = elim (Bool-cases (text_eq p q)) [
  | inl same ↦ ap fs (text_eq_sound p q same) ∙ h.0 ∙ ap head (sym (text_eq_sound p q same))
  | inr other ↦ IsClean-at head fs qs p h.1 (ground arith)
]

put_back_at :
    (head fs : Files) (path text p : Text)
    → fs path ≡ head path
    → checkout head (path ∷ []) (write path text fs) p ≡ fs p
unfolding checkout write text_in
put_back_at head fs path text p h = elim (Bool-cases (text_eq p path)) [
  | inl e ↦
      let same = ap fs (text_eq_sound p path e) in
      let there = ap head (text_eq_sound p path e) in simp (e, same, there, h)
  | inr e ↦ simp e
]

-- A file of the commit comes back whatever stands in its place.
pub checkout-write :
    (head fs : Files) (path text : Text)
    → fs path ≡ head path
    → checkout head (path ∷ []) (write path text fs) ≡ fs
checkout-write head fs path text h = fun_ext (λ p. put_back_at head fs path text p h)

checkout_at :
    (head fs : Files) (paths : List Text) (p : Text)
    → IsClean head paths fs
    → checkout head paths fs p ≡ fs p
unfolding checkout
checkout_at head fs paths p h = elim (Bool-cases (text_in p paths)) [
  | inl e ↦ let there = IsClean-at head fs paths p h e in simp (e, there)
  | inr e ↦ simp e
]

-- A checkout of files that are those of the commit changes nothing.
pub checkout-IsClean :
    (head fs : Files) (paths : List Text) → IsClean head paths fs → checkout head paths fs ≡ fs
checkout-IsClean head fs paths h = fun_ext (λ p. checkout_at head fs paths p h)

-- What a row is judged to be on its own: out of date, or what the build of the files with its one change
-- says; nothing where that build is interrupted.
pub alone : Build → Files → Option (Text × Text) → Option Outcome
unfolding judged write
alone build fs none = some stale
alone build fs (some (target, mutated)) = judged (build (write target mutated fs))

-- The file that a row changes is that of the commit.
abbrev pub Hits : Files → Files → Option (Text × Text) → Type 0
Hits head fs none = Unit
Hits head fs (some (target, mutated)) = fs target ≡ head target

pub try_mutant-alone :
    (build : Build) (head fs : Files) (hit : Option (Text × Text))
    → Hits head fs hit
    → try_mutant build head fs hit ≡ (alone build fs hit, fs)
unfolding try_mutant alone
try_mutant-alone build head fs none h = refl
try_mutant-alone build head fs (some (target, mutated)) h =
    ap (λ x. (judged (build (write target mutated fs)), x))
      (checkout-write head fs target mutated h)

has_judgement : Option Outcome → Bool → Bool
has_judgement none rest = false
has_judgement (some o) rest = rest

module _ {ℓ} {Row : Type ℓ} where
  put : Row → Option Outcome → List (Row × Outcome) → List (Row × Outcome)
  put row none rest = []
  put row (some o) rest = (row, o) ∷ rest

  -- The rows with their judgements, up to the first that was interrupted.
  pub until : (Row → Option Outcome) → List Row → List (Row × Outcome)
  unfolding put
  until judge [] = []
  until judge (row ∷ rows) = put row (judge row) (until judge rows)

  -- Every row has a judgement.
  pub all_judged : (Row → Option Outcome) → List Row → Bool
  unfolding has_judgement
  all_judged judge [] = true
  all_judged judge (row ∷ rows) = has_judgement (judge row) (all_judged judge rows)

  pub All-each : (P : Row → Type ℓ) → ((row : Row) → P row) → (rows : List Row) → All P rows
  All-each P h [] = tt
  All-each P h (row ∷ rows) = (h row, All-each P h rows)

  -- A loop whose step leaves the files as they are, up to its `finally`, judges every row on those files.
  pub try_rows-until :
      (step : Files → Row → Option Outcome × Files) (judge : Row → Option Outcome) (fs : Files)
      → (rows : List Row) → All (λ row. step fs row ≡ (judge row, fs)) rows
      → try_rows step rows fs
        ≡ record { results = until judge rows; finished = all_judged judge rows; files = fs }
  unfolding try_rows go_on until all_judged put has_judgement
  try_rows-until step judge fs [] h = refl
  try_rows-until step judge fs (row ∷ rows) h =
      let rest = try_rows-until step judge fs rows h.1 in
      let now = h.0 in
      elim (Option-cases (judge row)) [ inl e ↦ simp (now, e) | inr (o, e) ↦ simp (now, e, rest) ]

  -- Every row has a judgement and it is `killed`.
  abbrev pub AllKilled : (Row → Option Outcome) → List Row → Type 0
  AllKilled judge rows = All (λ row. judge row ≡ some killed) rows

  killed_status :
      (row : Row) (o : Outcome) (rest : List (Row × Outcome))
      → (final_status ((row, o) ∷ rest) ≡ 0) ↔ ((o ≡ killed) × (final_status rest ≡ 0))
  unfolding final_status tally
  killed_status row killed rest = ground arith
  killed_status row survived rest = ground arith
  killed_status row not_compiled rest = ground arith
  killed_status row timed_out rest = ground arith
  killed_status row unclassified rest = ground arith
  killed_status row stale rest = ground arith

  -- the status behind the loop
  abbrev pub status_of : (Row → Option Outcome) → List Row → Option ℕ
  status_of judge rows =
      if all_judged judge rows then some (final_status (until judge rows)) else none

  pub status_of-IsZero :
      (judge : Row → Option Outcome) (rows : List Row)
      → AllKilled judge rows
      → status_of judge rows ≡ some 0
  unfolding all_judged until put has_judgement
  status_of-IsZero judge [] h = unfold final_status tally in refl
  status_of-IsZero judge (row ∷ rows) h =
      let rest = status_of-IsZero judge rows h.1 in
      let k = killed_status row killed (until judge rows) in let first = h.0 in ground arith

  pub status_of-AllKilled :
      (judge : Row → Option Outcome) (rows : List Row)
      → status_of judge rows ≡ some 0
      → AllKilled judge rows
  unfolding all_judged until put has_judgement
  status_of-AllKilled judge [] h = tt
  status_of-AllKilled judge (row ∷ rows) h = elim (Option-cases (judge row)) [
    | inl e ↦ absurd (ground arith)
    | inr (o, e) ↦
        let k = killed_status row o (until judge rows) in
        let now : o ≡ killed = ground arith in
        (e ∙ ap some now, status_of-AllKilled judge rows (ground arith))
  ]

-- ===== src/Linecov/Measure.antt =====
-- `main`: the lines with code that no binary ran, and the exit status.
use gopher_metal.Prelude.{
  ℕ, ◌≡◌, ◌↔◌, refl, ap, Bool, true, false, not, ◌&&◌, ◌||◌, List, [], ◌∷◌, ◌++◌, contains,
  contains-append, Bool-cases, inl, inr, arith, ◌==◌, if◌then◌else◌,
}
use gopher_metal.Linecov.{Table}

-- one binary: its table, the lines that its run hit, and the status that the run gave, which is negative for
-- a signal
pub record Binary : Type 0 where
  pub table : Table
  pub hit : List ℕ
  pub is_zero : Bool

-- set().union(*table.values())
unfoldable pub all_lines : Table → List ℕ
all_lines [] = []
all_lines ((addr, lines) ∷ table) = lines ++ all_lines table

-- {n for n in lines if ...}
unfoldable pub only : (ℕ → Bool) → List ℕ → List ℕ
only test [] = []
only test (n ∷ ns) = let rest = only test ns in if test n then n ∷ rest else rest

-- Another binary's tests reach the file, not this one's.
abbrev pub skips : Table → Bool
skips [] = true
skips (row ∷ table) = false

-- have: `is_brace` is whether the line is a closing brace alone
unfoldable pub have_of : (ℕ → Bool) → List Binary → List ℕ
unfolding all_lines only
have_of is_brace [] = []
have_of is_brace (b ∷ binaries) =
    only (λ n. not (is_brace n)) (all_lines b.table) ++ have_of is_brace binaries

-- ran
unfoldable pub ran_of : List Binary → List ℕ
ran_of [] = []
ran_of (b ∷ binaries) = let rest = ran_of binaries in if skips b.table then rest else b.hit ++ rest

any_crashed : List Binary → Bool
any_crashed [] = false
any_crashed (b ∷ binaries) = (not (skips b.table) && not b.is_zero) || any_crashed binaries

-- have - ran; the sort is for the print
unfoldable pub missed : (ℕ → Bool) → List Binary → List ℕ
unfolding have_of ran_of only
missed is_brace binaries =
    only (λ n. not (contains (ran_of binaries) n)) (have_of is_brace binaries)

no_lines : List ℕ → Bool
no_lines [] = true
no_lines (n ∷ ns) = false

unfoldable pub exit_status : (ℕ → Bool) → List Binary → ℕ
unfolding no_lines have_of any_crashed
exit_status is_brace binaries =
    if no_lines (have_of is_brace binaries) then 2 else if any_crashed binaries then 1 else 0

contains-only :
    (test : ℕ → Bool) (ns : List ℕ) (n : ℕ) → contains (only test ns) n ≡ (test n && contains ns n)
unfolding only
contains-only test [] n = elim (Bool-cases (test n)) [ inl e ↦ simp e | inr e ↦ simp e ]
contains-only test (m ∷ ns) n =
    let rest = contains-only test ns n in
    elim (Bool-cases (n == m)) [
      | inl e ↦ let same : test n ≡ test m = ap test (ground arith) in ground (arith, same, rest, e)
      | inr e ↦ ground (arith, rest, e)
    ]

-- A binary's table has the line.
abbrev pub is_in : List Binary → ℕ → Bool
is_in [] n = false
is_in (b ∷ binaries) n = contains (all_lines b.table) n || is_in binaries n

-- A binary with a table hit the line.
abbrev pub is_hit : List Binary → ℕ → Bool
is_hit [] n = false
is_hit (b ∷ binaries) n = (not (skips b.table) && contains b.hit n) || is_hit binaries n

have_of-is_in :
    (is_brace : ℕ → Bool) (binaries : List Binary) (n : ℕ)
    → contains (have_of is_brace binaries) n ≡ (not (is_brace n) && is_in binaries n)
unfolding have_of
have_of-is_in is_brace [] n = elim (Bool-cases (is_brace n)) [ inl e ↦ simp e | inr e ↦ simp e ]
have_of-is_in is_brace (b ∷ binaries) n =
    let lines = all_lines b.table in
    let test = λ (m : ℕ). not (is_brace m) in
    ground (
      arith,
      contains-append (only test lines) (have_of is_brace binaries) n,
      contains-only test lines n,
      have_of-is_in is_brace binaries n,
    )

ran_of-is_hit : (binaries : List Binary) (n : ℕ) → contains (ran_of binaries) n ≡ is_hit binaries n
unfolding ran_of
ran_of-is_hit [] n = refl
ran_of-is_hit (b ∷ binaries) n =
    ground (arith, contains-append b.hit (ran_of binaries) n, ran_of-is_hit binaries n)

-- A line is reported missed exactly where a table has it, it is no closing brace, and no binary hit it.
pub missed_iff :
    (is_brace : ℕ → Bool) (binaries : List Binary) (n : ℕ)
    → (contains (missed is_brace binaries) n ≡ true)
      ↔ ((is_in binaries n ≡ true) × (is_brace n ≡ false) × (is_hit binaries n ≡ false))
unfolding missed
missed_iff is_brace binaries n =
    let test = λ (m : ℕ). not (contains (ran_of binaries) m) in
    let c = contains-only test (have_of is_brace binaries) n in
    let h = have_of-is_in is_brace binaries n in
    let r = ran_of-is_hit binaries n in ground (arith, c, h, r)

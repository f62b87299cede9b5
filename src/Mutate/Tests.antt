-- ===== src/Mutate/Tests.antt =====
-- A checkout of one file, what its tests say, and the theorems at them.
use gopher_metal.Prelude.{
  ◌≡◌, ◌≢◌, ◌↔◌, refl, false, List, [], ◌∷◌, ◌++◌, none, some, if◌then◌else◌,
}
use gopher_metal.Prelude.Text.{Text, codes, text_eq, contains_text, starts_with}
use gopher_metal.Prelude.Regex.{search_text, match_start, literal, plus, any_of, all_of}
use gopher_metal.Verdicts.Texts.{has_word}
use gopher_metal.Mutate.Verdict.{exited, killed, survived, unclassified, verdict, verdict_of}
use gopher_metal.Mutate.Apply.{apply, count_text}
use gopher_metal.Mutate.Apply.Once.{apply-append}
use gopher_metal.Mutate.Apply.Found.{is_some, suits, apply-suits}
use gopher_metal.Mutate.Runs.{Files, Build, Ended, judged}
use gopher_metal.Mutate.Runs.Restored.{IsClean, AllKilled}
use gopher_metal.Mutate.Runs.Judged.{judge_of}
use gopher_metal.Mutate.Runs.Tcp.{Mutant, where_is, read_targets, run, main}
use gopher_metal.Mutate.Runs.Tcp.Judged.{tcp-files, tcp_iff}
use gopher_metal.Mutate.Runs.Guards.{Guard, hit, paths_of, run as guards_run, main as guards_main}
use gopher_metal.Mutate.Runs.Guards.Judged.{guards-files, guards_iff}
use gopher_metal.Mutate.Tables.Changes.{get_elem?, tcp_mutants, tcp-changes}

a_failure : verdict (exited 1) (codes "error: 'unit_tests.test.a name' failed: 1 != 2") ≡ killed
unfolding verdict verdict_of search_text match_start literal plus any_of all_of
a_failure = refl

a_lint : verdict (exited 1) (codes "error: 'lint' failed") ≡ unclassified
unfolding verdict verdict_of search_text match_start literal plus any_of all_of
a_lint = refl

abbrev target : Text
target = codes "src/a.zig"

abbrev targets : List Text
targets = target ∷ []

-- the commit, and the tree before a run
abbrev tree : Files
tree p = if text_eq p target then codes "x == y" else []

-- git status, of a tree with nothing uncommitted
abbrev nothing_dirty : List Text → Files → Text
nothing_dirty paths fs = []

-- A test fails where the comparison is another.
abbrev tests : Build
tests fs =
    if contains_text (codes "==") (fs target)
    then some (exited 0, [])
    else some (exited 1, codes "error: 'u.test.a' failed")

abbrev row : Mutant
row = record {
  name = codes "another";
  what = codes "the comparison is another";
  old = codes "==";
  new = codes "!=";
  nth = none;
}

tree-IsClean : has_word (nothing_dirty targets tree) ≡ false → IsClean tree targets tree
tree-IsClean h = (refl, tt)

applied : apply (codes "x == y") (codes "==") (codes "!=") none ≡ some (codes "x != y")
unfolding apply starts_with
applied = refl

apply-append_example :
    (front : Text) × (back : Text) × (codes "x == y" ≡ front ++ (codes "==" ++ back))
    × (codes "x != y" ≡ front ++ (codes "!=" ++ back))
apply-append_example =
    apply-append (codes "x == y") (codes "==") (codes "!=") none (codes "x != y") applied

apply-suits_example :
    is_some (apply (codes "a b a") (codes "a") (codes "c") (some 1))
    ≡ suits (some 1) (count_text (codes "a") (codes "a b a"))
apply-suits_example = apply-suits (codes "a b a") (codes "a") (codes "c") (some 1)

tcp-files_example :
    Ended.files (main tests tree targets nothing_dirty (row ∷ []) (codes "another" ∷ []) tree)
    ≡ tree
tcp-files_example =
    tcp-files tests tree targets nothing_dirty tree tree-IsClean (row ∷ []) (codes "another" ∷ [])

tcp_iff_example : (Ended.status (run tests tree targets nothing_dirty (row ∷ []) tree) ≡ some 0) ↔ (
    (has_word (nothing_dirty targets tree) ≡ false)
    × (judged (tests tree) ≡ some survived)
    × AllKilled (judge_of tests (λ now r. where_is (read_targets targets tree) r) tree) (row ∷ []))
tcp_iff_example = tcp_iff tests tree targets nothing_dirty tree tree-IsClean (row ∷ [])

abbrev row_a : Guard
row_a = record { file = codes "a"; name = codes "another"; old = codes "=="; new = codes "!=" }

tree_a-IsClean :
    (paths : List Text) → has_word (nothing_dirty paths tree) ≡ false → IsClean tree paths tree
tree_a-IsClean [] h = tt
tree_a-IsClean (p ∷ ps) h = (refl, tree_a-IsClean ps h)

guards-files_example :
    Ended.files (guards_main tests tree nothing_dirty (row_a ∷ []) (codes "a" ∷ []) tree) ≡ tree
guards-files_example =
    guards-files tests tree nothing_dirty tree tree_a-IsClean (row_a ∷ []) (codes "a" ∷ [])

guards_iff_example :
    (Ended.status (guards_run tests tree nothing_dirty (row_a ∷ []) tree) ≡ some 0) ↔ (
      (has_word (nothing_dirty (paths_of (row_a ∷ [])) tree) ≡ false)
      × (judged (tests tree) ≡ some survived)
      × AllKilled (judge_of tests hit tree) (row_a ∷ []))
guards_iff_example = guards_iff tests tree nothing_dirty tree tree_a-IsClean (row_a ∷ [])

abbrev line : Text
line = codes "  c.rto_at = if (c.highest() != c.una) now + c.rto_ns else null;"

abbrev mutated : Text
mutated = codes "  c.rto_at = null;"

abbrev clears_timer : Mutant
clears_timer = elim (get_elem? tcp_mutants 6) [ none ↦ row | some r ↦ r ]

timer_cleared : apply line clears_timer.old clears_timer.new clears_timer.nth ≡ some mutated
unfolding apply starts_with
timer_cleared = refl

tcp-changes_example : mutated ≢ line
tcp-changes_example = tcp-changes 6 clears_timer line mutated refl timer_cleared

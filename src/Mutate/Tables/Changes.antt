-- ===== src/Mutate/Tables/Changes.antt =====
-- A mutant that applies changes its source: no row of the tables replaces a text by itself.
use gopher_metal.Prelude.{
  ◌≡◌, ◌≢◌, refl, sym, ap, ◌∙◌, Bool, true, false, ◌&&◌, not, List, [], ◌∷◌, ◌++◌, map, Option,
  none, some, ℕ, zero, suc, subst, arith,
}
use mathlib.Core.List.{append_cancel_left, append_cancel_right}
use gopher_metal.Prelude.Text.{Text, text_eq, text_eq_refl}
use gopher_metal.Mutate.Apply.{apply}
use gopher_metal.Mutate.Runs.{Files}
use gopher_metal.Mutate.Apply.Once.{apply-append}
use gopher_metal.Mutate.Runs.Tcp.{Mutant}
use gopher_metal.Mutate.Runs.Guards.{Guard, hit, path_of}
use gopher_metal.Mutate.Runs.Guards.Judged.{hit-applied}
use gopher_metal.Mutate.Tables.Sending.{timer_rows, going_back_rows, clock_rows, window_rows}
use gopher_metal.Mutate.Tables.Receiving.{receive_rows, offered_rows, slot_rows, loss_rows}
use gopher_metal.Mutate.Tables.Guarded.{io_rows, disk_fat_rows, folder_rows, restart_rows}

-- Another text in its place is another text.
pub apply-differs :
    (source old new m : Text) (nth : Option ℕ)
    → text_eq old new ≡ false
    → apply source old new nth ≡ some m
    → m ≢ source
apply-differs source old new m nth other h same =
    let (front, back, before, after) = apply-append source old new nth m h in
    let met : new ++ back ≡ old ++ back =
      append_cancel_left front (new ++ back) (old ++ back) (sym after ∙ same ∙ before) in
    let e : old ≡ new = sym (append_cancel_right new old back met) in
    let yes : text_eq old new ≡ true = ap (text_eq old) (sym e) ∙ text_eq_refl old in
    absurd (ground (arith, yes, other))

-- MUTANTS of the two tools
abbrev pub tcp_mutants : List Mutant
tcp_mutants =
    timer_rows ++ going_back_rows ++ clock_rows ++ window_rows ++ receive_rows ++ offered_rows
    ++ slot_rows ++ loss_rows

abbrev pub guard_mutants : List Guard
guard_mutants = io_rows ++ disk_fat_rows ++ folder_rows ++ restart_rows

all_differ : List (Text × Text) → Bool
all_differ [] = true
all_differ ((old, new) ∷ rest) = not (text_eq old new) && all_differ rest

-- the row with the number, counted from 0
abbrev pub get_elem? {ℓ} : {A : Type ℓ} → List A → ℕ → Option A
get_elem? [] n = none
get_elem? (x ∷ xs) zero = some x
get_elem? (x ∷ xs) (suc n) = get_elem? xs n

tcp_differ : all_differ (map (λ (row : Mutant). (row.old, row.new)) tcp_mutants) ≡ true
unfolding all_differ text_eq
tcp_differ = refl

guards_differ : all_differ (map (λ (row : Guard). (row.old, row.new)) guard_mutants) ≡ true
unfolding all_differ text_eq
guards_differ = refl

module _ {Row : Type 0} (pair : Row → Text × Text) where
  differs_at :
      (rows : List Row) (n : ℕ) (row : Row)
      → all_differ (map pair rows) ≡ true
      → get_elem? rows n ≡ some row
      → text_eq (pair row).0 (pair row).1 ≡ false
  unfolding all_differ
  differs_at [] n row h k = absurd (ground arith)
  differs_at (x ∷ xs) zero row h k =
      let e : x ≡ row = ground arith in
      let first : text_eq (pair x).0 (pair x).1 ≡ false = ground arith in
      subst (λ r. text_eq (pair r).0 (pair r).1 ≡ false) e first
  differs_at (x ∷ xs) (suc n) row h k = differs_at xs n row (ground arith) k

-- A row of mutate_tcp.py that applies to a source gives another source.
pub tcp-changes :
    (n : ℕ) (row : Mutant) (source m : Text)
    → get_elem? tcp_mutants n ≡ some row
    → apply source row.old row.new row.nth ≡ some m
    → m ≢ source
tcp-changes n row source m k h =
    apply-differs source row.old row.new m row.nth
      (differs_at (λ (r : Mutant). (r.old, r.new)) tcp_mutants n row tcp_differ k) h

-- A row of mutate_guards.py that applies gives its file another text.
pub guards-changes :
    (n : ℕ) (row : Guard) (fs : Files) (p m : Text)
    → get_elem? guard_mutants n ≡ some row
    → hit fs row ≡ some (p, m)
    → m ≢ fs p
guards-changes n row fs p m k h =
    let (e, there) = hit-applied fs row p m h in
    let other =
      apply-differs (fs (path_of row.file)) row.old row.new m none
        (differs_at (λ (r : Guard). (r.old, r.new)) guard_mutants n row guards_differ k) there in
    subst (λ x. m ≢ fs x) e other

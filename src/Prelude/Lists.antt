-- ===== src/Prelude/Lists.antt =====
-- Lists measured by native numbers, and lists of numbers as sets.
use Prim.Native.Nat.{ℕ, zero, suc, ◌+◌, ◌≤◌, ◌<◌}
use mathlib.Core.Path.{◌≡◌, refl}
use mathlib.Core.Bool.{Bool, false, ◌||◌}
use mathlib.Core.List.{List, [], ◌∷◌, ◌++◌}
use native.Mathlib.Omega.{arith}
use gopher_metal.Prelude.Tests.{◌==◌, if◌then◌else◌}

module _ {ℓ} {A : Type ℓ} where
  abbrev pub length : List A → ℕ
  length [] = 0
  length (x ∷ xs) = suc (length xs)

  pub length-append : (xs ys : List A) → length (xs ++ ys) ≡ length xs + length ys
  length-append [] ys = omega arith
  length-append (x ∷ xs) ys = omega (arith, length-append xs ys)

  -- Only empty lists append to nothing.
  pub append_eq_nil : (xs ys : List A) → xs ++ ys ≡ [] → (xs ≡ []) × (ys ≡ [])
  append_eq_nil [] ys h = (refl, h)
  append_eq_nil (x ∷ xs) ys h = absurd (ground arith)

  pub append_of_nil : (xs ys : List A) → xs ≡ [] → ys ≡ [] → xs ++ ys ≡ []
  append_of_nil [] ys h k = k
  append_of_nil (x ∷ xs) ys h k = absurd (ground arith)

-- Every item of the list satisfies `P`.
abbrev pub All {ℓ κ} : {A : Type ℓ} → (A → Type κ) → List A → Type κ
All P [] = Unit
All P (x ∷ xs) = P x × All P xs

pub All-append {ℓ κ} :
    {A : Type ℓ} (P : A → Type κ) (xs ys : List A) → All P xs → All P ys → All P (xs ++ ys)
All-append P [] ys h k = k
All-append P (x ∷ xs) ys h k = (h.0, All-append P xs ys h.1 k)

-- `c in seen`, for a set or a list of numbers
abbrev pub contains : List ℕ → ℕ → Bool
contains [] a = false
contains (x ∷ xs) a = a == x || contains xs a

-- No number stands twice in the list.
abbrev pub IsDistinct : List ℕ → Type 0
IsDistinct [] = Unit
IsDistinct (x ∷ xs) = (contains xs x ≡ false) × IsDistinct xs

pub contains-append :
    (xs ys : List ℕ) (a : ℕ) → contains (xs ++ ys) a ≡ (contains xs a || contains ys a)
contains-append [] ys a = refl
contains-append (x ∷ xs) ys a = ground (arith, contains-append xs ys a)

-- Every item of the first list is missing from the second.
abbrev pub IsDisjoint : List ℕ → List ℕ → Type 0
IsDisjoint [] ys = Unit
IsDisjoint (x ∷ xs) ys = (contains ys x ≡ false) × IsDisjoint xs ys

-- The number of values below `n` that are missing from the list.
abbrev pub missing : ℕ → List ℕ → ℕ
missing zero xs = 0
missing (suc n) xs = (if contains xs n then 0 else 1) + missing n xs

pub missing-le : (n : ℕ) (xs : List ℕ) → missing n xs ≤ n
missing-le zero xs = omega arith
missing-le (suc n) xs = ground (arith, missing-le n xs)

missing_above : (n : ℕ) (xs : List ℕ) (c : ℕ) → n ≤ c → missing n (xs ++ c ∷ []) ≡ missing n xs
missing_above zero xs c h = refl
missing_above (suc n) xs c h =
    ground (arith, missing_above n xs c (omega arith), contains-append xs (c ∷ []) n)

-- A new value below `n` leaves one value fewer to come.
pub missing_new :
    (n : ℕ) (xs : List ℕ) (c : ℕ)
    → c < n
    → contains xs c ≡ false
    → missing n (xs ++ c ∷ []) + 1 ≡ missing n xs
missing_new zero xs c h new = elim h [ ]
missing_new (suc n) xs c h new =
    ground (arith, missing_new n xs c, missing_above n xs c, contains-append xs (c ∷ []) n)

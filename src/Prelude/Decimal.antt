-- ===== src/Prelude/Decimal.antt =====
-- `str` of a whole number that is not negative.
use Prim.Native.Nat.{ℕ, zero, suc, ◌+◌, ◌-◌, ◌*◌, ◌/◌, ◌%◌, ◌≤◌}
use mathlib.Core.Path.{◌≡◌, refl}
use mathlib.Core.Logic.{inl, inr}
use mathlib.Core.List.{[], ◌∷◌, ◌++◌}
use native.Mathlib.Omega.{arith}
use gopher_metal.Prelude.Tests.{ltb, if◌then◌else◌, Bool-cases, if_elim}
use gopher_metal.Prelude.Lists.{All, All-append}
use gopher_metal.Prelude.Text.{Text}

-- the digits, the last by the remainder; each step on fuel leaves a tenth
unfoldable pub digits : ℕ → ℕ → Text
digits zero n = (b'0' + n % 10) ∷ []
digits (suc fuel) n =
    let rest = digits fuel (n / 10) in
    if ltb n 10 then (b'0' + n) ∷ [] else rest ++ ((b'0' + n % 10) ∷ [])

-- str(n)
unfoldable pub decimal : ℕ → Text
unfolding digits
decimal n = digits n n

-- the number that the digits stand for, behind those that were read
pub value : ℕ → Text → ℕ
value acc [] = acc
value acc (c ∷ cs) = value (acc * 10 + (c - b'0')) cs

value-append : (acc : ℕ) (s t : Text) → value acc (s ++ t) ≡ value (value acc s) t
unfolding value
value-append acc [] t = refl
value-append acc (c ∷ cs) t = value-append (acc * 10 + (c - b'0')) cs t

-- Fuel of the number itself is enough for every digit.
value-digits : (fuel n : ℕ) → n ≤ fuel → value 0 (digits fuel n) ≡ n
unfolding value digits
value-digits zero n h = omega (arith, h)
value-digits (suc fuel) n h = elim (Bool-cases (ltb n 10)) [
  | inl e ↦ ground (arith, e)
  | inr e ↦
      let low : 10 ≤ n = ground arith in
      let r = value-digits fuel (n / 10) (omega (arith, h, low)) in
      let a = value-append 0 (digits fuel (n / 10)) ((b'0' + n % 10) ∷ []) in
      ground (arith, e, r, a)
]

-- The digits of a number read back as it.
pub value-decimal : (n : ℕ) → value 0 (decimal n) ≡ n
unfolding decimal
value-decimal n = value-digits n n (omega arith)

-- A digit is no space and no line's end.
abbrev pub IsDigit : ℕ → Type 0
IsDigit c = (b'0' ≤ c) × (c ≤ b'9')

digits-IsDigit : (fuel n : ℕ) → All IsDigit (digits fuel n)
unfolding digits
digits-IsDigit zero n = ((omega arith, omega arith), tt)
digits-IsDigit (suc fuel) n =
    if_elim (All IsDigit) (ltb n 10) ((b'0' + n) ∷ [])
      (digits fuel (n / 10) ++ ((b'0' + n % 10) ∷ [])) (λ e. ((omega arith, ground (arith, e)), tt))
      (λ e.
        All-append IsDigit (digits fuel (n / 10)) ((b'0' + n % 10) ∷ [])
          (digits-IsDigit fuel (n / 10)) ((omega arith, omega arith), tt))

pub decimal-IsDigit : (n : ℕ) → All IsDigit (decimal n)
unfolding decimal
decimal-IsDigit n = digits-IsDigit n n

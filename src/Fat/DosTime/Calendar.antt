-- ===== src/Fat/DosTime/Calendar.antt =====
-- The order of dates is the order of their ordinals.
use gopher_metal.Prelude.{
  ℕ, zero, suc, ◌+◌, ◌-◌, ◌*◌, ◌/◌, ◌≤◌, ◌<◌, ◌≡◌, refl, ◌⊎◌, inl, inr, arith, ◌==◌, if◌then◌else◌,
  Bool-cases, ==_iff,
}
use gopher_metal.Fat.DosTime.{is_leap, month_days, days_before_month, ordinal}

days_before_month-suc :
    (y m : ℕ)
    → 1 ≤ m
    → m < 12
    → days_before_month y (suc m) ≡ days_before_month y m + month_days y m
unfolding days_before_month month_days is_leap
days_before_month-suc y m lo hi = ground arith

days_before_month_mono :
    (y m n : ℕ)
    → 1 ≤ m
    → m < n
    → n ≤ 12
    → days_before_month y m + month_days y m ≤ days_before_month y n
days_before_month_mono y m zero lo lt hi = elim lt [ ]
days_before_month_mono y m (suc n) lo lt hi = elim (Bool-cases (m == n)) [
  | inl e ↦
      let same : m ≡ n = (==_iff m n).0 e in
      rw same (omega (arith, days_before_month-suc y n (omega arith) (omega arith)))
  | inr e ↦ omega (
    arith,
    days_before_month_mono y m n lo (ground arith) (omega arith),
    days_before_month-suc y n (ground arith) (omega arith),
  )
]

unfoldable pub january : ℕ → ℕ
january y = (y - 1) * 365 + (y - 1) / 4 - (y - 1) / 100 + (y - 1) / 400

january-suc : (y : ℕ) → 1 ≤ y → january (suc y) ≡ january y + 365 + (if is_leap y then 1 else 0)
unfolding january is_leap
january-suc y h = ground arith

pub january_mono :
    (y z : ℕ) → 1 ≤ y → y < z → january y + 365 + (if is_leap y then 1 else 0) ≤ january z
january_mono y zero lo lt = elim lt [ ]
january_mono y (suc z) lo lt = elim (Bool-cases (y == z)) [
  | inl e ↦
      let same : y ≡ z = (==_iff y z).0 e in rw same (omega (arith, january-suc z (omega arith)))
  | inr e ↦ omega (arith, january_mono y z lo (ground arith), january-suc z (ground arith))
]

-- The days of a year's months up to a day of it are at most its days.
pub year_days :
    (y m d : ℕ)
    → 1 ≤ m
    → m ≤ 12
    → d ≤ month_days y m
    → days_before_month y m + d ≤ 365 + (if is_leap y then 1 else 0)
unfolding days_before_month month_days is_leap
year_days y m d lo hi h = ground arith

pub ordinal-january : (y m d : ℕ) → ordinal y m d ≡ january y + days_before_month y m + d
unfolding ordinal january
ordinal-january y m d = refl

-- One date before another: an earlier year, or the same and an earlier month, or an earlier day.
abbrev pub IsEarlier : ℕ → ℕ → ℕ → ℕ → ℕ → ℕ → Type 0
IsEarlier y m d y' m' d' = (y < y') ⊎ ((y ≡ y') × ((m < m') ⊎ ((m ≡ m') × (d < d'))))

pub ordinal_mono :
    (y m d y' m' d' : ℕ)
    → 1 ≤ y
    → 1 ≤ m
    → m ≤ 12
    → d ≤ month_days y m
    → 1 ≤ m'
    → m' ≤ 12
    → 1 ≤ d'
    → IsEarlier y m d y' m' d'
    → ordinal y m d < ordinal y' m' d'
ordinal_mono y m d y' m' d' hy lo hi fits lo' hi' one (inl lt) = omega (
  arith,
  ordinal-january y m d,
  ordinal-january y' m' d',
  january_mono y y' hy lt,
  year_days y m d lo hi fits,
)
ordinal_mono y m d y' m' d' hy lo hi fits lo' hi' one (inr (same, inl lt)) = rw (← same) (
    omega (
      arith,
      ordinal-january y m d,
      ordinal-january y m' d',
      days_before_month_mono y m m' lo lt hi',
    ))
ordinal_mono y m d y' m' d' hy lo hi fits lo' hi' one (inr (same, inr (month, lt))) =
    rw (← same, ← month) (omega (arith, ordinal-january y m d, ordinal-january y m d'))

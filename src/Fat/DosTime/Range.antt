-- ===== src/Fat/DosTime/Range.antt =====
-- The times that an entry can hold.
use gopher_metal.Prelude.{
  ℕ, ◌*◌, ◌^◌, ◌≤◌, ◌<◌, ◌≡◌, inl, inr, some, arith, ◌==◌, Bool-cases, ==_iff,
}
use gopher_metal.Fat.DosTime.{month_days, ordinal, timegm, dos_time}
use gopher_metal.Fat.DosTime.Calendar.{january, january_mono, year_days, ordinal-january}
use gopher_metal.Fat.DosTime.Moment.{dos_time-eq-some, timegm-ordinal, january_1980}
use gopher_metal.Fat.DosTime.Packed.{january_2108}

january_mono_le : (y z : ℕ) → 1 ≤ y → y ≤ z → january y ≤ january z
january_mono_le y z lo le = elim (Bool-cases (y == z)) [
  | inl e ↦ rw ((==_iff y z).0 e) (omega arith)
  | inr e ↦ omega (arith, january_mono y z lo (ground arith))
]

ordinal_range :
    (y m d : ℕ)
    → 1980 ≤ y
    → y ≤ 2107
    → 1 ≤ m
    → m ≤ 12
    → 1 ≤ d
    → d ≤ month_days y m
    → (722815 ≤ ordinal y m d) × (ordinal y m d ≤ 769565)
ordinal_range y m d lo hi a b c e = omega (
  arith,
  ordinal-january y m d,
  january_1980,
  january_2108,
  january_mono_le 1980 y (omega arith) lo,
  january_mono y 2108 (omega arith) (omega arith),
  year_days y m d a b e,
)

timegm_range :
    (y m d h mi half : ℕ)
    → (722815 ≤ ordinal y m d) × (ordinal y m d ≤ 769565)
    → h < 24
    → mi < 60
    → half * 2 < 60
    → (315532800 ≤ timegm y m d h mi (half * 2)) × (timegm y m d h mi (half * 2) ≤ 4354819198)
timegm_range y m d h mi half r a b c = omega (arith, timegm-ordinal y m d h mi (half * 2))

-- Every time that an entry can hold lies from 1980-01-01T00:00:00Z up to 2107-12-31T23:59:58Z.
pub dos_time_range :
    (t d : ℕ) {s : ℕ} → d < 2 ^ 16 → dos_time t d ≡ some s → (315532800 ≤ s) × (s ≤ 4354819198)
dos_time_range t d {s} small p =
    let (v, e) = dos_time-eq-some t d s p in
    rw (← e) (
      timegm_range _ _ _ _ _ _
        (ordinal_range _ _ _ (omega arith) (omega arith) v.month_lo v.month_hi v.day_lo v.day_fits)
        v.hour_hi v.minute_hi v.second_hi)

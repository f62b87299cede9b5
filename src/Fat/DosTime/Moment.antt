-- ===== src/Fat/DosTime/Moment.antt =====
-- The fields of a DOS time and date, and the seconds that they stand for.
use gopher_metal.Prelude.{
  ℕ, ◌+◌, ◌-◌, ◌*◌, ◌/◌, ◌%◌, ◌≤◌, ◌<◌, ◌≡◌, refl, inl, inr, true, some, arith, ◌==◌, Bool-cases,
  ==_iff,
}
use gopher_metal.Fat.DosTime.{month_days, ordinal, epoch_ordinal, timegm, is_moment, dos_time}
use gopher_metal.Fat.DosTime.Calendar.{january, january_mono, ordinal-january, IsEarlier}

-- What the tests of a moment say of its fields.
pub record IsMoment (y m d h mi s : ℕ) : Type 0 where
  pub month_lo : 1 ≤ m
  pub month_hi : m ≤ 12
  pub day_lo : 1 ≤ d
  pub day_fits : d ≤ month_days y m
  pub hour_hi : h < 24
  pub minute_hi : mi < 60
  pub second_hi : s < 60

IsMoment-is_moment : (y m d h mi s : ℕ) → is_moment y m d h mi s ≡ true → IsMoment y m d h mi s
unfolding is_moment
IsMoment-is_moment y m d h mi s p = record {
  month_lo = ground arith;
  month_hi = ground arith;
  day_lo = ground arith;
  day_fits = ground arith;
  hour_hi = ground arith;
  minute_hi = ground arith;
  second_hi = ground arith;
}

-- The fields of a DOS time and date.
abbrev moment_of {ℓ} : {A : Type ℓ} → ℕ → ℕ → (ℕ → ℕ → ℕ → ℕ → ℕ → ℕ → A) → A
moment_of t d k = k (1980 + d / 512) (d / 32 % 16) (d % 32) (t / 2048) (t / 32 % 64) (t % 32 * 2)

pub dos_time-eq-some :
    (t d s : ℕ) → dos_time t d ≡ some s → moment_of t d IsMoment × (moment_of t d timegm ≡ s)
dos_time-eq-some t d s e = elim (Bool-cases (moment_of t d is_moment)) [
  | inl p ↦ (IsMoment-is_moment _ _ _ _ _ _ p, (unfold dos_time in ground arith))
  | inr p ↦ absurd (unfold dos_time in ground arith)
]

pub date_split :
    (d d' : ℕ)
    → d < d'
    → IsEarlier (1980 + d / 512) (d / 32 % 16) (d % 32) (1980 + d' / 512) (d' / 32 % 16) (d' % 32)
date_split d d' h = elim (Bool-cases (d / 512 == d' / 512)) [
  | inl p ↦ elim (Bool-cases (d / 32 % 16 == d' / 32 % 16)) [
    | inl q ↦ inr (ground arith, inr (ground arith, ground arith))
    | inr q ↦ inr (ground arith, inl (ground arith))
  ]
  | inr p ↦ inl (ground arith)
]

pub timegm-ordinal :
    (y m d h mi s : ℕ)
    → timegm y m d h mi s ≡ (((ordinal y m d - epoch_ordinal) * 24 + h) * 60 + mi) * 60 + s
unfolding timegm
timegm-ordinal y m d h mi s = refl

pub january_1980 : january 1980 ≡ 722814
unfolding january
january_1980 = refl

pub ordinal_after_epoch : (y m d : ℕ) → 1980 ≤ y → epoch_ordinal < ordinal y m d
ordinal_after_epoch y m d h = elim (Bool-cases (y == 1980)) [
  | inl e ↦ rw ((==_iff y 1980).0 e) (omega (arith, ordinal-january 1980 m d, january_1980))
  | inr e ↦
      omega (
        arith,
        ordinal-january y m d,
        january_1980,
        january_mono 1980 y (omega arith) (ground arith),
      )
]

pub timegm_later_day :
    (y m d h mi s y' m' d' h' mi' s' : ℕ)
    → IsMoment y m d h mi s
    → epoch_ordinal < ordinal y m d
    → ordinal y m d < ordinal y' m' d'
    → timegm y m d h mi s < timegm y' m' d' h' mi' s'
timegm_later_day y m d h mi s y' m' d' h' mi' s' v e lt =
    omega (arith, timegm-ordinal y m d h mi s, timegm-ordinal y' m' d' h' mi' s')

pub timegm_same_day :
    (y m d t t' : ℕ)
    → IsMoment y m d (t / 2048) (t / 32 % 64) (t % 32 * 2)
    → IsMoment y m d (t' / 2048) (t' / 32 % 64) (t' % 32 * 2)
    → t < t'
    → timegm y m d (t / 2048) (t / 32 % 64) (t % 32 * 2)
      < timegm y m d (t' / 2048) (t' / 32 % 64) (t' % 32 * 2)
timegm_same_day y m d t t' v v' lt = omega (
  arith,
  timegm-ordinal y m d (t / 2048) (t / 32 % 64) (t % 32 * 2),
  timegm-ordinal y m d (t' / 2048) (t' / 32 % 64) (t' % 32 * 2),
)

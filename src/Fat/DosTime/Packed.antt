-- ===== src/Fat/DosTime/Packed.antt =====
-- The fields that hold a moment read back as its time.
use gopher_metal.Prelude.{ℕ, ◌+◌, ◌-◌, ◌*◌, ◌/◌, ◌%◌, ◌≤◌, ◌<◌, ◌≡◌, refl, true, some, arith}
use gopher_metal.Fat.DosTime.{is_leap, month_days, timegm, is_moment, dos_time}
use gopher_metal.Fat.DosTime.Calendar.{january}

is_moment-IsMoment :
    (y m d h mi s : ℕ)
    → 1 ≤ m
    → m ≤ 12
    → 1 ≤ d
    → d ≤ month_days y m
    → h < 24
    → mi < 60
    → s < 60
    → is_moment y m d h mi s ≡ true
unfolding is_moment month_days is_leap
is_moment-IsMoment y m d h mi s a b c e f g i = ground arith

month_days-le : (y m : ℕ) → month_days y m ≤ 31
unfolding month_days
month_days-le y m = ground arith

dos_time_at :
    (t d y m day h mi s : ℕ)
    → 1980 + d / 512 ≡ y
    → d / 32 % 16 ≡ m
    → d % 32 ≡ day
    → t / 2048 ≡ h
    → t / 32 % 64 ≡ mi
    → t % 32 * 2 ≡ s
    → is_moment y m day h mi s ≡ true
    → dos_time t d ≡ some (timegm y m day h mi s)
dos_time_at t d y m day h mi s ey em ed eh emi es p =
    rw (← ey, ← em, ← ed, ← eh, ← emi, ← es)
      (unfold dos_time in rw (rw (← ey, ← em, ← ed, ← eh, ← emi, ← es) at p) refl)

-- The fields that hold a moment with an even second read back as its Unix time.
pub dos_time_packed :
    (y m d h mi half : ℕ)
    → 1980 ≤ y
    → 1 ≤ m
    → m ≤ 12
    → 1 ≤ d
    → d ≤ month_days y m
    → h < 24
    → mi < 60
    → half < 30
    → dos_time (h * 2048 + mi * 32 + half) ((y - 1980) * 512 + m * 32 + d)
      ≡ some (timegm y m d h mi (half * 2))
dos_time_packed y m d h mi half a b c e f g i j =
    let small : d ≤ 31 = omega (arith, month_days-le y m) in
    dos_time_at (h * 2048 + mi * 32 + half) ((y - 1980) * 512 + m * 32 + d) y m d h mi (half * 2)
      (omega arith) (omega arith) (omega arith) (omega arith) (omega arith) (omega arith)
      (is_moment-IsMoment y m d h mi (half * 2) b c e f g i (omega arith))

pub january_2108 : january 2108 ≡ 769565
unfolding january
january_2108 = refl

-- ===== src/Fat/DosTime/Order.antt =====
-- The order of DOS dates and times is the order of the seconds that they stand for.
use gopher_metal.Prelude.{ℕ, ◌<◌, ◌≡◌, ◌⊎◌, inl, inr, some, arith}
use gopher_metal.Fat.DosTime.{dos_time}
use gopher_metal.Fat.DosTime.Calendar.{ordinal_mono}
use gopher_metal.Fat.DosTime.Moment.{
  dos_time-eq-some, date_split, ordinal_after_epoch, timegm_later_day, timegm_same_day,
}

-- Of two entries that have a date, the one with the smaller date field, or the same date field and
-- the smaller time field, has the smaller Unix time.
pub dos_time_mono :
    (t d t' d' : ℕ) {s s' : ℕ}
    → dos_time t d ≡ some s
    → dos_time t' d' ≡ some s'
    → (d < d') ⊎ ((d ≡ d') × (t < t'))
    → s < s'
dos_time_mono t d t' d' {s} {s'} p p' (inl lt) =
    let (v, e) = dos_time-eq-some t d s p in
    let (v', e') = dos_time-eq-some t' d' s' p' in
    rw (← e, ← e')
      (timegm_later_day _ _ _ _ _ _ _ _ _ _ _ _ v (ordinal_after_epoch _ _ _ (omega arith)) (
        ordinal_mono _ _ _ _ _ _ (omega arith) v.month_lo v.month_hi v.day_fits v'.month_lo
          v'.month_hi v'.day_lo (date_split d d' lt)))
dos_time_mono t d t' d' {s} {s'} p p' (inr (same, lt)) =
    let (v, e) = dos_time-eq-some t d s p in
    let (v', e') = dos_time-eq-some t' d s' (rw same p') in
    rw (← e, ← e') (timegm_same_day _ _ _ t t' v v' lt)

-- ===== src/Fat/DosTime.antt =====
-- `dos_time` of tools/fat16_read.py: a DOS date and time as Unix seconds, with what it uses of
-- Python's `datetime.date` and `calendar.timegm`.
pub mod Calendar
pub mod Moment
pub mod Order
pub mod Packed
pub mod Range
use gopher_metal.Prelude.{
  ℕ, ◌+◌, ◌-◌, ◌*◌, ◌/◌, ◌%◌, Bool, not, ◌&&◌, ◌||◌, Option, none, some, ltb, leb, ◌==◌,
  if◌then◌else◌,
}

pub is_leap : ℕ → Bool
is_leap y = (y % 4 == 0) && (not (y % 100 == 0) || y % 400 == 0)

-- `calendar.monthrange`, for a month from 1 to 12
unfoldable pub month_days : ℕ → ℕ → ℕ
unfolding is_leap
month_days year month =
    if month == 2
    then (if is_leap year then 29 else 28)
    else if month == 4 || month == 6 || month == 9 || month == 11
    then 30
    else 31

-- The days of the year before the month.
pub days_before_month : ℕ → ℕ → ℕ
unfolding is_leap
days_before_month year month =
    let leap = if ltb 2 month && is_leap year then 1 else 0 in
    leap
    + (if month == 1
        then 0
        else if month == 2
        then 31
        else if month == 3
        then 59
        else if month == 4
        then 90
        else if month == 5
        then 120
        else if month == 6
        then 151
        else if month == 7
        then 181
        else if month == 8
        then 212
        else if month == 9
        then 243
        else if month == 10
        then 273
        else if month == 11
        then 304
        else 334)

-- `date.toordinal`: the days up to the year's first, and the day 1 January of year 1 is 1.
pub ordinal : ℕ → ℕ → ℕ → ℕ
unfolding days_before_month
ordinal year month day =
    let y = year - 1 in y * 365 + y / 4 - y / 100 + y / 400 + days_before_month year month + day

-- The Unix epoch's ordinal.
abbrev pub epoch_ordinal : ℕ
epoch_ordinal = 719163

-- `calendar.timegm`
pub timegm : ℕ → ℕ → ℕ → ℕ → ℕ → ℕ → ℕ
unfolding ordinal
timegm year month day hour minute second =
    (((ordinal year month day - epoch_ordinal) * 24 + hour) * 60 + minute) * 60 + second

-- The tests of `dos_time`; the last is `datetime.date` not raising.
pub is_moment : ℕ → ℕ → ℕ → ℕ → ℕ → ℕ → Bool
unfolding month_days
is_moment year month day hour minute second =
    leb 1 month
    && leb month 12
    && leb 1 day
    && leb day 31
    && ltb hour 24
    && ltb minute 60
    && ltb second 60
    && leb day (month_days year month)

-- `x >> k` is a division, and `x & (2 ** k - 1)` a remainder.
unfoldable pub dos_time : ℕ → ℕ → Option ℕ
unfolding is_moment timegm
dos_time t d =
    let year = 1980 + d / 512 in
    let month = d / 32 % 16 in
    let day = d % 32 in
    let hour = t / 2048 in
    let minute = t / 32 % 64 in
    let second = t % 32 * 2 in
    if is_moment year month day hour minute second
    then some (timegm year month day hour minute second)
    else none

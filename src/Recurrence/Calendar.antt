-- ===== src/Recurrence/Calendar.antt =====
-- The local dates of modules/recurrence/recurrence.spec-model.ts, in a zone whose offset is constant:
-- what `new Date(year, month, …)`, `getDay` and `setDate` do, and addDays, daysInMonth, dateOnly.
use planner_api.Common.Int.{ℤ, pos, negsuc}
use planner_api.Common.{
  ℕ, zero, suc, ◌+◌, ◌-◌, ◌*◌, ◌/◌, ◌%◌, ◌≤◌, ◌<◌, Bool, not, ◌&&◌, ◌||◌, eqb, ltb, if◌then◌else◌,
}

-- `month` is from 0 to 11, `ms` the milliseconds since midnight.
pub record Date : Type 0 where
  pub year : ℕ
  pub month : ℕ
  pub date : ℕ
  pub ms : ℕ

abbrev pub is_leap : ℕ → Bool
is_leap y = eqb (y % 4) 0 && (not (eqb (y % 100) 0) || eqb (y % 400) 0)

abbrev pub month_length : ℕ → ℕ → ℕ
month_length y m =
    if eqb m 1
    then (if is_leap y then 29 else 28)
    else if eqb m 3 || eqb m 5 || eqb m 8 || eqb m 10
    then 30
    else 31

-- What `new Date(year, …)` takes a year for: 0 to 99 stand for 1900 to 1999.
abbrev pub full_year : ℕ → ℕ
full_year y = if ltb y 100 then 1900 + y else y

-- daysInMonth of a full year (its callers apply `full_year`); the month may be past the end of the year.
unfoldable pub days_in_month : ℕ → ℕ → ℕ
days_in_month y m = month_length (y + m / 12) (m % 12)

-- A date of the calendar.
pub record IsDate (d : Date) : Type 0 where
  pub month_fits : d.month < 12
  pub date_pos : 1 ≤ d.date
  pub date_fits : d.date ≤ month_length d.year d.month
  pub ms_fits : d.ms < 86400000

-- Dates in the order of their instants.
abbrev pub stamp : Date → ℕ
stamp d = ((d.year * 12 + d.month) * 32 + d.date) * 86400000 + d.ms

unfoldable pub next_day : Date → Date
next_day d =
    if ltb d.date (month_length d.year d.month)
    then record d { date = d.date + 1 }
    else if ltb d.month 11
    then record d { month = d.month + 1; date = 1 }
    else record d { year = d.year + 1; month = 0; date = 1 }

unfoldable pub prev_day : Date → Date
prev_day d =
    if ltb 1 d.date
    then record d { date = d.date - 1 }
    else if ltb 0 d.month
    then record d { month = d.month - 1; date = month_length d.year (d.month - 1) }
    else record d { year = d.year - 1; month = 11; date = month_length (d.year - 1) 11 }

-- addDays, for a number of days that is not negative.
unfoldable pub add_days : Date → ℕ → Date
unfolding next_day
add_days d zero = d
add_days d (suc n) = add_days (next_day d) n

-- addDays of a negative number of days.
unfoldable pub sub_days : Date → ℕ → Date
unfolding prev_day
sub_days d zero = d
sub_days d (suc n) = sub_days (prev_day d) n

abbrev pub date_only : Date → Date
date_only d = record d { year = full_year d.year; ms = 0 }

-- `new Date(year, month, date, …)` of a full year, for a date that is at most the month's last.
unfoldable pub make_date : ℕ → ℕ → ℕ → ℕ → Date
unfolding prev_day
make_date y m zero ms = prev_day (record { year = y + m / 12; month = m % 12; date = 1; ms = ms })
make_date y m (suc d) ms = record { year = y + m / 12; month = m % 12; date = suc d; ms = ms }

-- The same for a day of any sign.
unfoldable pub date_on : ℕ → ℕ → ℤ → ℕ → Date
unfolding make_date sub_days
date_on y m (pos d) ms = make_date y m d ms
date_on y m (negsuc n) ms = sub_days (make_date y m 0 ms) (n + 1)

-- addDays, for a number of days of any sign, and of its negative.
abbrev pub days_earlier : Date → ℤ → Date
days_earlier d (pos n) = sub_days d n
days_earlier d (negsuc n) = add_days d (n + 1)

-- A year, and a month index of any sign, as a year and an index that is not negative.
abbrev pub normal : ℕ → ℤ → ℕ × ℕ
normal y (pos m) = (y, m)
normal y (negsuc n) = (y - (n / 12 + 1), 11 - n % 12)

-- `new Date(…, hours, minutes)` on a day at midnight, for `hours * 60 + minutes`.
unfoldable pub at_minute : Date → ℤ → Date
unfolding add_days sub_days
at_minute d (pos n) = record (add_days d (n / 1440)) { ms = n % 1440 * 60000 }
at_minute d (negsuc n) = record (sub_days d (n / 1440 + 1)) { ms = (1439 - n % 1440) * 60000 }

-- `getHours()` and `getMinutes()` together: seconds are lost.
abbrev pub whole_minutes : ℕ → ℕ
whole_minutes ms = ms / 60000 * 60000

-- The days of the year before a month.
abbrev pub days_before : ℕ → ℕ → ℕ
days_before y zero = 0
days_before y (suc m) = days_before y m + month_length y m

-- Days since the last of December of the year 0, a Sunday; years from 1 on.
unfoldable pub day_number : Date → ℕ
day_number d =
    365 * (d.year - 1)
    + (d.year - 1) / 4
    - (d.year - 1) / 100
    + (d.year - 1) / 400
    + days_before d.year d.month
    + d.date

-- dartWeekday: Monday is 1, Sunday is 7.
unfoldable pub dart_weekday : Date → ℕ
unfolding day_number
dart_weekday d = if eqb (day_number d % 7) 0 then 7 else day_number d % 7

-- ===== src/Recurrence.antt =====
-- modules/recurrence/recurrence.spec-model.ts: when the next occurrence is due, and its reminder.
pub mod Calendar
pub mod Later
pub mod Chosen
pub mod Spawn
pub mod Sweep
use planner_api.Common.{
  ℕ, zero, suc, ◌+◌, ◌-◌, ◌*◌, ◌/◌, ◌%◌, ◌^◌, max, min, Bool, true, false, not, Option, none, some,
  eqb, ltb, if◌then◌else◌,
}
use planner_api.Common.Int.{ℤ, pos, negsuc}
use planner_api.Crud.{get_or}
use planner_api.Recurrence.Calendar.{
  Date, days_in_month, stamp, add_days, date_only, make_date, date_on, days_earlier, normal,
  at_minute, full_year, whole_minutes, dart_weekday,
}

-- `other` is no constant of the enum: the `default` of the switch.
pub data RecurrenceFrequency : Type 0 where
  daily weekly selected_weekdays every_n_weeks monthly every_n_months yearly other :
      RecurrenceFrequency

pub record RecurrenceSpec : Type 0 where
  pub frequency : RecurrenceFrequency
  pub interval : ℤ
  pub weekdays_mask : Option ℤ
  pub day_of_month : Option ℤ
  pub month_of_year : Option ℤ
  pub reminder_days_before : Option ℤ
  pub reminder_minute_of_day : Option ℤ
  pub end_date : Option Date

-- `(mask & (1 << (weekday - 1))) !== 0`, in two's complement.
abbrev pub contains : ℤ → ℕ → Bool
contains (pos mask) weekday = eqb (mask / 2 ^ (weekday - 1) % 2) 1
contains (negsuc n) weekday = eqb (n / 2 ^ (weekday - 1) % 2) 0

-- `mask === 0`
abbrev pub is_zero : ℤ → Bool
is_zero (pos n) = eqb n 0
is_zero (negsuc n) = false

-- `Math.min(day, lastDay)`
abbrev pub min_day : ℤ → ℕ → ℤ
min_day (pos n) last = pos (min n last)
min_day (negsuc n) last = negsuc n

-- `n - 1`
abbrev pub pred_ℤ : ℤ → ℤ
pred_ℤ (pos zero) = negsuc 0
pred_ℤ (pos (suc n)) = pos n
pred_ℤ (negsuc n) = negsuc (suc n)

-- `interval < 1 ? 1 : interval`
abbrev pub at_least_one : ℤ → ℕ
at_least_one (pos n) = max 1 n
at_least_one (negsuc n) = 1

abbrev pub effective_interval : RecurrenceSpec → ℕ
effective_interval spec = at_least_one spec.interval

unfoldable pub add_months : Date → ℕ → Date
add_months d months =
    let year = full_year d.year in
    make_date year (d.month + months) (min d.date (days_in_month year (d.month + months)))
      (whole_minutes d.ms)

abbrev pub in_month : Option ℤ → Date → Date → Date
in_month none base from = base
in_month (some day) base from =
    let year = full_year base.year in
    date_on year base.month (min_day day (days_in_month year base.month)) (whole_minutes from.ms)

unfoldable pub next_monthly : RecurrenceSpec → Date → ℕ → Date
next_monthly spec from step = in_month spec.day_of_month (add_months from step) from

-- `monthOfYear` is 1 for January.
abbrev pub in_year : ℕ → ℤ → ℤ → ℕ → Date
in_year year month day ms =
    let month_index = normal (full_year year) (pred_ℤ month) in
    date_on month_index.0 month_index.1 (min_day day (days_in_month month_index.0 month_index.1))
      (whole_minutes ms)

unfoldable pub next_yearly : RecurrenceSpec → Date → ℕ → Date
next_yearly spec from step =
    in_year (from.year + step) (get_or spec.month_of_year (pos (from.month + 1)))
      (get_or spec.day_of_month (pos from.date)) from.ms

-- The loop over `i`, `days` of them being left, from the day before the candidate on.
unfoldable pub first_weekday : ℤ → ℕ → Date → Option Date
first_weekday mask zero d = none
first_weekday mask (suc days) d =
    let candidate = add_days d 1 in
    let rest = first_weekday mask days candidate in
    if contains mask (dart_weekday candidate) then some candidate else rest

unfoldable pub next_selected_weekday : RecurrenceSpec → Date → Option Date
unfolding first_weekday
next_selected_weekday spec from =
    let mask = get_or spec.weekdays_mask (pos 0) in
    if is_zero mask then none else first_weekday mask 7 from

unfoldable pub next_of : RecurrenceFrequency → RecurrenceSpec → Date → ℕ → Option Date
next_of daily spec from step = some (add_days from step)
next_of weekly spec from step = some (add_days from (7 * step))
next_of every_n_weeks spec from step = some (add_days from (7 * step))
next_of monthly spec from step = some (next_monthly spec from step)
next_of every_n_months spec from step = some (next_monthly spec from step)
next_of yearly spec from step = some (next_yearly spec from step)
next_of selected_weekdays spec from step = next_selected_weekday spec from
next_of other spec from step = none

abbrev pub until : Option Date → Date → Option Date
until none next = some next
until (some end) next = if ltb (stamp end) (stamp next) then none else some next

abbrev pub and_until : Option Date → Option Date → Option Date
and_until end none = none
and_until end (some next) = until end next

unfoldable pub next_after : RecurrenceSpec → Date → Option Date
next_after spec from =
    and_until spec.end_date (next_of spec.frequency spec from (effective_interval spec))

-- `Math.floor(minute / 60) * 60 + minute % 60`: of a negative number, `%` is not positive.
abbrev pub hours_and_minutes : ℤ → ℤ
hours_and_minutes (pos n) = pos n
hours_and_minutes (negsuc n) = negsuc (n / 60 * 60 + 59 + (n + 1) % 60)

unfoldable pub reminder_for : RecurrenceSpec → Date → Option Date
unfolding at_minute
reminder_for spec due = elim spec.reminder_days_before [
  | none ↦ none
  | some days ↦ some (
      at_minute (date_only (days_earlier (date_only due) days))
        (hours_and_minutes (get_or spec.reminder_minute_of_day (pos 540))))
]

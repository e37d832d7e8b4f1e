-- ===== src/Recurrence/Later.antt =====
-- The next occurrence comes after the last one.
use planner_api.Common.{
  ℕ, zero, suc, ◌+◌, ◌*◌, ◌/◌, ◌%◌, ◌≤◌, ◌<◌, ◌≡◌, Option, none, some, ltb, arith, Bool-cases, inl,
  inr,
}
use planner_api.Common.Int.{ℤ, pos, negsuc}
use planner_api.Recurrence.Calendar.{
  Date, IsDate, month_length, days_in_month, stamp, next_day, make_date,
}

month_length_bounds : (y m : ℕ) → (28 ≤ month_length y m) × (month_length y m ≤ 31)
month_length_bounds y m = (ground arith, ground arith)

pub next_day-IsDate : (d : Date) → IsDate d → IsDate (next_day d)
unfolding next_day
next_day-IsDate d h = elim (Bool-cases (ltb d.date (month_length d.year d.month))) [
  | inl e ↦ rw e (record {
    month_fits = h.month_fits;
    date_pos = omega arith;
    date_fits = ground arith;
    ms_fits = h.ms_fits;
  })
  | inr e ↦ elim (Bool-cases (ltb d.month 11)) [
    | inl f ↦ rw e (
        rw f (record {
          month_fits = ground arith;
          date_pos = omega arith;
          date_fits = omega (arith, month_length_bounds d.year (d.month + 1));
          ms_fits = h.ms_fits;
        }))
    | inr f ↦ rw e (
        rw f (record {
          month_fits = omega arith;
          date_pos = omega arith;
          date_fits = omega (arith, month_length_bounds (d.year + 1) 0);
          ms_fits = h.ms_fits;
        }))
  ]
]

pub days_in_month_pos : (y m : ℕ) → 28 ≤ days_in_month y m
unfolding days_in_month
days_in_month_pos y m = omega (arith, month_length_bounds (y + m / 12) (m % 12))

pub make_date_months :
    (y m d ms : ℕ)
    → 1 ≤ d
    → (make_date y m d ms).year * 12 + (make_date y m d ms).month ≡ y * 12 + m
unfolding make_date
make_date_months y m zero ms p = absurd (omega (arith, p))
make_date_months y m (suc d) ms p = omega arith

-- A count that is given is positive.
abbrev pub Positive : Option ℤ → Type 0
Positive none = Unit
Positive (some (pos n)) = 1 ≤ n
Positive (some (negsuc n)) = ⊥

-- What the next occurrence promises.
pub record IsNext (from next : Date) : Type 0 where
  pub valid : IsDate next
  pub later : stamp from < stamp next

abbrev Promises : Date → Option Date → Type 0
Promises from none = Unit
Promises from (some next) = IsNext from next

-- Not after the end date, if there is one.
abbrev pub IsWithin : Option Date → Date → Type 0
IsWithin none next = Unit
IsWithin (some end) next = stamp next ≤ stamp end

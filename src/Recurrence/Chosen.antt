-- ===== src/Recurrence/Chosen.antt =====
-- What the next monthly occurrence and the next selected weekday are.
use planner_api.Common.{
  ℕ, zero, suc, ◌≤◌, ◌<◌, ◌≡◌, refl, true, false, none, some, arith, Bool-cases, inl, inr,
}
use planner_api.Crud.{get_or}
use planner_api.Common.Int.{ℤ, pos}
use planner_api.Recurrence.Calendar.{Date, add_days, next_day, dart_weekday}
use planner_api.Recurrence.{RecurrenceSpec, contains, is_zero, first_weekday, next_selected_weekday}

-- The `i`th day is the first of the days after `d` whose weekday the mask has.
pub record IsFirst (mask : ℤ) (d next : Date) (i : ℕ) : Type 0 where
  pub counted : next ≡ add_days d i
  pub selected : contains mask (dart_weekday next) ≡ true
  pub first : (j : ℕ) → 1 ≤ j → j < i → contains mask (dart_weekday (add_days d j)) ≡ false

first_weekday-IsFirst :
    (mask : ℤ) (days : ℕ) (d next : Date)
    → first_weekday mask days d ≡ some next
    → (i : ℕ) × (1 ≤ i) × (i ≤ days) × IsFirst mask d next i
unfolding first_weekday add_days
first_weekday-IsFirst mask zero d next e = cc
first_weekday-IsFirst mask (suc days) d next e =
    elim (Bool-cases (contains mask (dart_weekday (next_day d)))) [
      | inl c ↦
          let same : next_day d ≡ next = some_same (next_day d) next (rw c at e) in
          (
            1,
            omega arith,
            omega arith,
            rw (← same) (record {
              counted = refl;
              selected = c;
              first = λ j p q. absurd (omega (arith, p, q));
            }),
          )
      | inr c ↦
          let (i, p, q, found) = first_weekday-IsFirst mask days (next_day d) next (rw c at e) in
          (
            suc i,
            omega (arith, p),
            omega (arith, q),
            record {
              counted = found.counted;
              selected = found.selected;
              first = later i c found.first;
            },
          )
    ]
  where
    some_same : (a b : Date) → some a ≡ some b → a ≡ b
    some_same a b p = cc

    later :
        (i : ℕ)
        → contains mask (dart_weekday (next_day d)) ≡ false
        → ((j : ℕ) → 1 ≤ j → j < i → contains mask (dart_weekday (add_days (next_day d) j)) ≡ false)
        → (j : ℕ) → 1 ≤ j
        → j < suc i
        → contains mask (dart_weekday (add_days d j)) ≡ false
    later i c rest zero p q = absurd (omega (arith, p))
    later i c rest (suc zero) p q = c
    later i c rest (suc (suc j)) p q = rest (suc j) (omega arith) (omega (arith, q))

-- For selected weekdays the next occurrence is one of the seven days that follow, its weekday is in
-- the mask, and no day before it is.
pub next_selected_weekday-IsFirst :
    (spec : RecurrenceSpec) (from next : Date)
    → next_selected_weekday spec from ≡ some next
    → (i : ℕ) × (1 ≤ i) × (i ≤ 7) × IsFirst (get_or spec.weekdays_mask (pos 0)) from next i
unfolding next_selected_weekday
next_selected_weekday-IsFirst spec from next e =
    elim (Bool-cases (is_zero (get_or spec.weekdays_mask (pos 0)))) [
      | inl c ↦ absurd (no_some next (rw c at e))
      | inr c ↦ first_weekday-IsFirst (get_or spec.weekdays_mask (pos 0)) 7 from next (rw c at e)
    ]
  where
    no_some : (d : Date) → none ≡ some d → ⊥
    no_some d p = cc

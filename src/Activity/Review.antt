-- ===== src/Activity/Review.antt =====
-- What the weekly review adds up to.
use planner_api.Common.{ℕ, ◌+◌, ◌≡◌, List, [], ◌∷◌, length}
use planner_api.Activity.{WeeklyReview}

-- The sum of the counts.
abbrev pub total_of : {A : Type 0} → List (A × ℕ) → ℕ
total_of [] = 0
total_of ((a, n) ∷ l) = n + total_of l

-- The totals of the review are those of its lists, and the counts by organization add up to them.
pub record IsBalanced (r : WeeklyReview) : Type 0 where
  pub planned_total : r.planned_entries ≡ length r.planned
  pub unplanned_total : r.unplanned_entries ≡ length r.unplanned
  pub split : r.all_entries ≡ r.planned_entries + r.unplanned_entries
  pub organizations : total_of r.by_organization ≡ r.all_entries

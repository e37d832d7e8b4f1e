-- ===== src/Recurrence/Sweep.antt =====
-- modules/recurrence/recurrence.service.ts: materialiseDueSeries.
use planner_api.Common.{
  ℕ, ◌+◌, String, Bool, false, ◌&&◌, Option, none, some, List, [], ◌∷◌, ◌==◌, any, leb, ltb,
  if◌then◌else◌,
}
use planner_api.Store.Value.{
  Value, undefined, null, str, date, Row, get, truthy, text, instant, owner,
}
use planner_api.Store.Query.{Where, equals, is_null, not_null, not_in}
use planner_api.Store.Db.{Order}
use planner_api.Store.Action.{Action, pure, ◌>>=◌, Env, now}
use planner_api.Store.Action
use planner_api.Recurrence.Calendar.{add_days}
use planner_api.Recurrence.Spawn.{Zone, spawn_next_occurrence}

-- `orderBy: { completedAt: 'desc' }`
abbrev pub last_completed_first : Order
last_completed_first a b = leb (instant (get "completedAt" b)) (instant (get "completedAt" a))

abbrev pub completed_where : Where
completed_where =
    ("deletedAt", is_null)
    ∷ ("status", equals (str "done"))
    ∷ ("recurringSeriesId", not_null)
    ∷ ("recurrenceRuleId", not_null)
    ∷ ("completedAt", not_null)
    ∷ []

abbrev pub open_where : Row → Where
open_where task =
    ("userId", equals (get "userId" task))
    ∷ ("recurringSeriesId", equals (get "recurringSeriesId" task))
    ∷ ("deletedAt", is_null)
    ∷ ("status", not_in ("done" ∷ "dropped" ∷ []))
    ∷ []

-- `next && next.deadline && next.deadline <= horizon`
abbrev pub is_due : ℕ → Option Row → Bool
is_due horizon none = false
is_due horizon (some r) = truthy (get "deadline" r) && leb (instant (get "deadline" r)) horizon

module _ (env : Env) (zone : Zone) where
  -- `task.completedAt ?? new Date()`
  abbrev completion_of : Value → Action Value
  completion_of undefined = do t ← now env; pure (date t)
  completion_of null = do t ← now env; pure (date t)
  completion_of v = pure v

  abbrev pub materialise_unless : Row → ℕ → ℕ → Action Bool
  materialise_unless task horizon open_ones = if ltb 0 open_ones then pure false else (do
    at ← completion_of (get "completedAt" task)
    next ← spawn_next_occurrence env zone (owner task) task at
    pure (is_due horizon next))

  -- What is done for the latest completed task of a series.
  unfoldable pub materialise : Row → ℕ → Action Bool
  materialise task horizon = do
    open_ones ← Action.count env "task" (open_where task)
    materialise_unless task horizon open_ones

  -- The loop; `seen` are the series that it has met.
  unfoldable pub sweep : List Row → List String → ℕ → ℕ → Action ℕ
  unfolding materialise
  sweep [] seen horizon created = pure created
  sweep (task ∷ tasks) seen horizon created =
      let series = text (get "recurringSeriesId" task) in
      let skipped = sweep tasks seen horizon created in
      if any (λ s. s == series) seen then skipped else (do
        made ← materialise task horizon
        sweep tasks (series ∷ seen) horizon (if made then created + 1 else created))

  unfoldable pub materialise_due_series : ℕ → Action ℕ
  unfolding sweep
  materialise_due_series horizon_days = do
    t ← now env
    completed ← Action.find_many env "task" completed_where last_completed_first
    sweep completed [] (zone.to_instant (add_days (zone.to_local t) horizon_days)) 0

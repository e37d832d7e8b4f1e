-- ===== src/Recurrence/Spawn.antt =====
-- modules/recurrence/recurrence.service.ts: spawnNextOccurrence, toSpec and activitySourceFor.
use planner_api.Common.{
  ℕ, ◌+◌, String, Bool, true, false, not, ◌||◌, Option, none, some, List, [], ◌∷◌, ◌==◌, leb,
  length, if◌then◌else◌,
}
use planner_api.Common.Int.{ℤ, pos, negsuc}
use planner_api.Store.Value.{
  Value, null, int, str, date, big, Row, get, or_else, truthy, text, instant,
}
use planner_api.Store.Query.{Where, equals, is_null}
use planner_api.Store.Db.{Order}
use planner_api.Store.Action.{Action, pure, transaction, ◌>>=◌, ◌>>◌, Env, now, random_uuid}
use planner_api.Store.Action
use planner_api.Crud.{allocate}
use planner_api.Recurrence.Calendar.{Date}
use planner_api.Recurrence.{
  RecurrenceFrequency, daily, weekly, selected_weekdays, every_n_weeks, monthly, every_n_months,
  yearly, other, RecurrenceSpec, next_after, reminder_for,
}

-- The time zone of the process: the local date of an instant, and back.
pub record Zone : Type 0 where
  pub to_local : ℕ → Date
  pub to_instant : Date → ℕ

abbrev frequency_of : String → RecurrenceFrequency
frequency_of s =
    if s == "daily"
    then daily
    else if s == "weekly"
    then weekly
    else if s == "selectedWeekdays"
    then selected_weekdays
    else if s == "everyNWeeks"
    then every_n_weeks
    else if s == "monthly"
    then monthly
    else if s == "everyNMonths"
    then every_n_months
    else if s == "yearly"
    then yearly
    else other

abbrev integer_of : Value → ℤ
integer_of (int z) = z
integer_of v = pos 0

abbrev number_of : Value → Option ℤ
number_of (int z) = some z
number_of v = none

abbrev local_of : Zone → Value → Option Date
local_of zone (date t) = some (zone.to_local t)
local_of zone v = none

-- toSpec
unfoldable pub to_spec : Zone → Row → RecurrenceSpec
to_spec zone rule = record {
  frequency = frequency_of (text (get "frequency" rule));
  interval = integer_of (get "interval" rule);
  weekdays_mask = number_of (get "weekdaysMask" rule);
  day_of_month = number_of (get "dayOfMonth" rule);
  month_of_year = number_of (get "monthOfYear" rule);
  reminder_days_before = number_of (get "reminderDaysBefore" rule);
  reminder_minute_of_day = number_of (get "reminderMinuteOfDay" rule);
  end_date = local_of zone (get "endDate" rule);
}

abbrev pub date_value : Zone → Option Date → Value
date_value zone none = null
date_value zone (some d) = date (zone.to_instant d)

-- `orderBy: { position: 'asc' }`
abbrev leb_ℤ : ℤ → ℤ → Bool
leb_ℤ (pos m) (pos n) = leb m n
leb_ℤ (pos m) (negsuc n) = false
leb_ℤ (negsuc m) (pos n) = true
leb_ℤ (negsuc m) (negsuc n) = leb n m

abbrev pub by_position : Order
by_position a b = leb_ℤ (integer_of (get "position" a)) (integer_of (get "position" b))

-- activitySourceFor
abbrev pub activity_source_for : Row → Value
activity_source_for task =
    if truthy (get "recurringSeriesId" task) then str "recurringTask" else str "taskCompletion"

abbrev pub items_of : String → Value → Where
items_of user task =
    ("userId", equals (str user)) ∷ ("taskId", equals task) ∷ ("deletedAt", is_null) ∷ []

module _ (env : Env) (zone : Zone) (user : String) where
  -- The columns of the next occurrence.
  abbrev pub next_columns : RecurrenceSpec → Row → Date → ℕ → String → ℕ → Row
  next_columns spec completed due at id seq =
      ("id", str id)
      ∷ ("userId", str user)
      ∷ ("organizationId", get "organizationId" completed)
      ∷ ("projectId", get "projectId" completed)
      ∷ ("recurrenceRuleId", get "recurrenceRuleId" completed)
      ∷ ("recurringSeriesId", get "recurringSeriesId" completed)
      ∷ ("title", get "title" completed)
      ∷ ("description", get "description" completed)
      ∷ ("type", get "type" completed)
      ∷ ("status", str "next")
      ∷ ("priority", get "priority" completed)
      ∷ ("context", get "context" completed)
      ∷ ("deadline", date (zone.to_instant due))
      ∷ ("reminderAt", date_value zone (reminder_for spec due))
      ∷ ("createdAt", date at)
      ∷ ("updatedAt", date at)
      ∷ ("seq", big seq)
      ∷ []

  -- The loop over the checklist.
  unfoldable pub copy_items : List Row → Value → ℕ → ℕ → Action (Unit {0})
  copy_items [] task at seq = pure tt
  copy_items (item ∷ items) task at seq = do
    id ← random_uuid env
    Action.create env "checklistItem" (
        ("id", str id)
        ∷ ("userId", str user)
        ∷ ("taskId", task)
        ∷ ("label", get "label" item)
        ∷ ("position", get "position" item)
        ∷ ("createdAt", date at)
        ∷ ("updatedAt", date at)
        ∷ ("seq", big (seq + 1))
        ∷ [])
    copy_items items task at (seq + 1)

  -- From the search for an occurrence that is there already on.
  unfoldable pub spawn_unless : RecurrenceSpec → Row → Date → Option Row → Action (Option Row)
  unfolding copy_items
  spawn_unless spec completed due (some existing) = pure (some existing)
  spawn_unless spec completed due none = do
    at ← now env
    id ← random_uuid env
    template ← Action.find_many env "checklistItem" (items_of user (get "id" completed)) by_position
    base ← allocate user (1 + length template)
    transaction (do
      made ← Action.create env "task" (next_columns spec completed due at id (base + 1))
      copy_items template (get "id" made) at (base + 1)
      pure (some made))

  unfoldable pub spawn_due : RecurrenceSpec → Row → Option Date → Action (Option Row)
  unfolding spawn_unless
  spawn_due spec completed none = pure none
  spawn_due spec completed (some due) = do
    existing ← Action.find_first env "task" (
        ("userId", equals (str user))
        ∷ ("recurringSeriesId", equals (get "recurringSeriesId" completed))
        ∷ ("deadline", equals (date (zone.to_instant due)))
        ∷ ("deletedAt", is_null)
        ∷ [])
    spawn_unless spec completed due existing

  unfoldable pub spawn_by : Row → Value → Option Row → Action (Option Row)
  unfolding spawn_due
  spawn_by completed completed_at none = pure none
  spawn_by completed completed_at (some rule) = spawn_due (to_spec zone rule) completed (
      next_after (to_spec zone rule)
        (zone.to_local (instant (or_else (get "deadline" completed) completed_at))))

  unfoldable pub spawn_next_occurrence : Row → Value → Action (Option Row)
  unfolding spawn_by
  spawn_next_occurrence completed completed_at =
      if not (truthy (get "recurrenceRuleId" completed))
        || not (truthy (get "recurringSeriesId" completed))
      then pure none
      else do
        rule ← Action.find_first env "recurrenceRule" (
            ("id", equals (get "recurrenceRuleId" completed))
            ∷ ("userId", equals (str user))
            ∷ ("deletedAt", is_null)
            ∷ [])
        spawn_by completed completed_at rule

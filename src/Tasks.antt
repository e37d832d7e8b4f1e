-- ===== src/Tasks.antt =====
-- modules/tasks/tasks.service.ts: the operations on tasks.
pub mod Checklist
pub mod Query
pub mod Scoped
use planner_api.Common.{
  ℕ, ◌+◌, String, Bool, true, false, not, Option, none, some, List, [], ◌∷◌, ◌++◌, ◌==◌, length,
  if◌then◌else◌,
}
use planner_api.Common.Int.{ℤ, pos, negsuc, succ_ℤ}
use planner_api.Store.Value.{
  Value, undefined, null, object, int, str, date, big, Row, get, spread, is_undefined, or_else,
  truthy, text, id_of,
}
use planner_api.Store.Query.{Where, equals, is_null}
use planner_api.Store.Db.{bad_request, Order}
use planner_api.Store.Action.{
  Action, pure, throw, throw_if, transaction, ◌>>=◌, ◌>>◌, Env, now, random_uuid,
}
use planner_api.Store.Action
use planner_api.Crud.{allocate, next, find_one, assert_owned_or_null}
use planner_api.Crud
use planner_api.Recurrence.{reminder_for}
use planner_api.Recurrence.Spawn.{
  Zone, to_spec, date_value, activity_source_for, spawn_next_occurrence,
}

-- `value ? new Date(value) : null`; the DTOs have checked that the text is a date.
abbrev pub instant_value : Option ℕ → Value
instant_value none = object
instant_value (some t) = date t

abbrev pub date_or_null : Env → Value → Value
date_or_null env v = if truthy v then instant_value (env.new_date v) else null

-- An entry of `data` that is set only if the client sent the field.
abbrev pub if_sent : Value → Row → Row
if_sent v columns = if is_undefined v then [] else columns

-- `carryForwardCount + 1`
abbrev pub plus_one : Value → Value
plus_one (int z) = int (succ_ℤ z)
plus_one v = v

-- Which rows belong to a task, in the order the database gives them.
abbrev pub any_order : Order
any_order a b = true

abbrev pub parts_of : String → String → Where
parts_of user id =
    ("userId", equals (str user)) ∷ ("taskId", equals (str id)) ∷ ("deletedAt", is_null) ∷ []

module _ (env : Env) (zone : Zone) (user : String) where
  abbrev pub check_parent : Option Row → Action (Unit {0})
  check_parent none = throw (bad_request "Parent task does not exist")
  check_parent (some parent) =
      throw_if (truthy (get "parentTaskId" parent)) (bad_request "Subtasks are one level deep")

  -- `if (dto.parentTaskId)`
  unfoldable pub assert_parent : Value → Action (Unit {0})
  assert_parent id =
      if truthy id
      then (do
        parent ←
            Action.find_first env "task"
              (("id", equals id) ∷ ("userId", equals (str user)) ∷ ("deletedAt", is_null) ∷ [])
        check_parent parent)
      else pure tt

  unfoldable pub assert_parents : Row → Action (Unit {0})
  unfolding assert_parent
  assert_parents dto = do
    assert_owned_or_null env user "organization" (get "organizationId" dto)
    assert_owned_or_null env user "project" (get "projectId" dto)
    assert_owned_or_null env user "meeting" (get "sourceMeetingId" dto)
    assert_owned_or_null env user "requirement" (get "sourceRequirementId" dto)
    assert_parent (get "parentTaskId" dto)

  unfoldable pub create_recurrence_rule : Row → Action Row
  create_recurrence_rule dto = do
    at ← now env
    id ← random_uuid env
    seq ← next user
    Action.create env "recurrenceRule" (
        ("id", str id)
        ∷ ("userId", str user)
        ∷ ("frequency", get "frequency" dto)
        ∷ ("interval", or_else (get "interval" dto) (int (pos 1)))
        ∷ ("weekdaysMask", or_else (get "weekdaysMask" dto) null)
        ∷ ("dayOfMonth", or_else (get "dayOfMonth" dto) null)
        ∷ ("monthOfYear", or_else (get "monthOfYear" dto) null)
        ∷ ("reminderDaysBefore", or_else (get "reminderDaysBefore" dto) null)
        ∷ ("reminderMinuteOfDay", or_else (get "reminderMinuteOfDay" dto) null)
        ∷ ("endDate", date_or_null env (get "endDate" dto))
        ∷ ("createdAt", date at)
        ∷ ("updatedAt", date at)
        ∷ ("seq", big seq)
        ∷ [])

  -- The columns that `createTask` adds to the DTO's: rule, series and reminder.
  unfoldable pub create_with : Row → Value → Value → Value → Action Row
  create_with fields rule_id series reminder = Crud.create env "task" user (
      spread fields (
        ("type", or_else (get "type" fields) (str "projectWork"))
        ∷ ("status", or_else (get "status" fields) (str "inbox"))
        ∷ ("priority", or_else (get "priority" fields) (str "p2"))
        ∷ ("deadline", date_or_null env (get "deadline" fields))
        ∷ (
          "deadlinePrecision",
          (if truthy (get "deadline" fields)
              then or_else (get "deadlinePrecision" fields) (str "day")
              else str "day"),
        )
        ∷ ("followUpDate", date_or_null env (get "followUpDate" fields))
        ∷ ("reminderAt", reminder)
        ∷ ("recurrenceRuleId", rule_id)
        ∷ ("recurringSeriesId", series)
        ∷ []))

  abbrev pub reminder_from : Row → Value → Value
  reminder_from rule (date t) = date_value zone (reminder_for (to_spec zone rule) (zone.to_local t))
  reminder_from rule v = null

  -- `if (!reminderAt && fields.deadline)`
  abbrev pub first_reminder : Row → Row → Value
  first_reminder fields rule =
      if not (truthy (get "reminderAt" fields))
      then (if truthy (get "deadline" fields)
          then reminder_from rule (instant_value (env.new_date (get "deadline" fields)))
          else null)
      else date_or_null env (get "reminderAt" fields)

  unfoldable pub create_by : Row → Option Row → Action Row
  unfolding create_recurrence_rule create_with
  create_by fields none = create_with fields null null (date_or_null env (get "reminderAt" fields))
  create_by fields (some recurrence) = do
    rule ← create_recurrence_rule recurrence
    series ← random_uuid env
    create_with fields (get "id" rule) (str series) (first_reminder fields rule)

  -- createTask; `fields` is the DTO without `recurrence`.
  unfoldable pub create_task : Row → Option Row → Action Row
  unfolding assert_parents create_by
  create_task fields recurrence = do assert_parents fields; create_by fields recurrence

  -- The columns that a patch overrides.
  abbrev pub patched : Row → Row
  patched fields =
      if_sent (get "followUpDate" fields)
        (("followUpDate", date_or_null env (get "followUpDate" fields)) ∷ [])
      ++ if_sent (get "reminderAt" fields)
          (("reminderAt", date_or_null env (get "reminderAt" fields)) ∷ [])
      ++ if_sent (get "deadline" fields) (
          (if truthy (get "deadline" fields) then [] else ("deadlinePrecision", str "day") ∷ [])
          ++ ("deadline", date_or_null env (get "deadline" fields)) ∷ [])

  unfoldable pub update_task : String → Row → Action Row
  unfolding assert_parents
  update_task id fields = do
    assert_parents fields
    Crud.update env "task" user id (spread fields (patched fields))

  abbrev pub is_done : Row → Bool
  is_done task = text (get "status" task) == "done"

  unfoldable pub finish : String → Row → ℕ → Action (Row × Option Row)
  finish id task when = do
    base ← allocate user 2
    updated ← transaction (do
      done ← Action.update env "task" id (
          ("status", str "done")
          ∷ ("completedAt", date when)
          ∷ ("droppedAt", null)
          ∷ ("updatedAt", date when)
          ∷ ("seq", big (base + 1))
          ∷ [])
      activity ← random_uuid env
      Action.create env "activityEntry" (
          ("id", str activity)
          ∷ ("userId", str user)
          ∷ ("organizationId", get "organizationId" task)
          ∷ ("projectId", get "projectId" task)
          ∷ ("taskId", get "id" task)
          ∷ ("description", get "title" task)
          ∷ ("source", activity_source_for task)
          ∷ ("occurredAt", date when)
          ∷ ("createdAt", date when)
          ∷ ("updatedAt", date when)
          ∷ ("seq", big (base + 2))
          ∷ [])
      pure done)
    following ← spawn_next_occurrence env zone user task (date when)
    pure (updated, following)

  -- `completedAt ?? new Date()`
  abbrev pub completion_time : Option ℕ → Action ℕ
  completion_time none = now env
  completion_time (some t) = pure t

  abbrev pub complete_open : String → Option ℕ → Row → Action (Row × Option Row)
  complete_open id completed_at task =
      if is_done task
      then pure (task, none)
      else (do when ← completion_time completed_at; finish id task when)

  unfoldable pub complete : String → Option ℕ → Action (Row × Option Row)
  unfolding finish
  complete id completed_at = do
    task ← find_one env "task" user id false
    complete_open id completed_at task

  unfoldable pub reopen : String → Action Row
  reopen id = do
    find_one env "task" user id false
    Crud.update env "task" user id
        (("status", str "next") ∷ ("completedAt", null) ∷ ("droppedAt", null) ∷ [])

  unfoldable pub drop_task : String → Action Row
  drop_task id = do
    find_one env "task" user id false
    at ← now env
    Crud.update env "task" user id (("status", str "dropped") ∷ ("droppedAt", date at) ∷ [])

  unfoldable pub carry_forward : String → Action Row
  carry_forward id = do
    task ← find_one env "task" user id false
    at ← now env
    Crud.update env "task" user id (
        ("carriedForwardAt", date at)
        ∷ ("carryForwardCount", plus_one (get "carryForwardCount" task))
        ∷ [])

  -- A loop that writes the same columns to each row, with the next seq.
  unfoldable pub touch_all : String → Row → List Row → ℕ → Action ℕ
  touch_all model columns [] seq = pure seq
  touch_all model columns (r ∷ rs) seq = do
    Action.update env model (id_of r) (("seq", big (seq + 1)) ∷ columns)
    touch_all model columns rs (seq + 1)

  unfoldable pub remove_task : String → Action Row
  unfolding touch_all
  remove_task id = do
    task ← find_one env "task" user id false
    children ← Action.find_many env "checklistItem" (parts_of user id) any_order
    activities ← Action.find_many env "activityEntry" (parts_of user id) any_order
    at ← now env
    base ← allocate user (1 + length children + length activities)
    transaction (do
      after ←
          touch_all "checklistItem" (("deletedAt", date at) ∷ ("updatedAt", date at) ∷ []) children
            base
      last ←
          touch_all "activityEntry" (("taskId", null) ∷ ("updatedAt", date at) ∷ []) activities
            after
      Action.update env "task" id
          (("deletedAt", date at) ∷ ("updatedAt", date at) ∷ ("seq", big (last + 1)) ∷ []))

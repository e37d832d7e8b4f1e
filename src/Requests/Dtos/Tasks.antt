-- ===== src/Requests/Dtos/Tasks.antt =====
-- modules/tasks/tasks.dto.ts: the bodies and queries of the requests.
use planner_api.Common.{[], ◌∷◌}
use planner_api.Requests.Dto.{
  Dto, object, extending, partial, field, is_optional, is_string, is_not_empty, is_uuid, is_boolean,
  is_int, is_date_string, validate_nested, listed, max_length, min, max, is_enum, is_enum_each,
  type_of,
}
use planner_api.Requests.Dtos.Paging.{pagination_query_dto}

abbrev pub recurrence_spec_dto : Dto
recurrence_spec_dto = object (
    field "frequency" (is_enum "RecurrenceFrequency" ∷ [])
    ∷ field "interval" (is_optional ∷ type_of "Number" ∷ is_int ∷ min 1 ∷ [])
    ∷ field "weekdaysMask" (is_optional ∷ type_of "Number" ∷ is_int ∷ min 0 ∷ max 127 ∷ [])
    ∷ field "dayOfMonth" (is_optional ∷ type_of "Number" ∷ is_int ∷ min 1 ∷ max 31 ∷ [])
    ∷ field "monthOfYear" (is_optional ∷ type_of "Number" ∷ is_int ∷ min 1 ∷ max 12 ∷ [])
    ∷ field "reminderDaysBefore" (is_optional ∷ type_of "Number" ∷ is_int ∷ min 0 ∷ [])
    ∷ field "reminderMinuteOfDay" (is_optional ∷ type_of "Number" ∷ is_int ∷ min 0 ∷ max 1439 ∷ [])
    ∷ field "endDate" (is_optional ∷ is_date_string ∷ [])
    ∷ [])

abbrev pub create_task_dto : Dto
create_task_dto = object (
    field "id" (is_optional ∷ is_uuid ∷ [])
    ∷ field "title" (is_string ∷ is_not_empty ∷ max_length 500 ∷ [])
    ∷ field "description" (is_optional ∷ is_string ∷ [])
    ∷ field "type" (is_optional ∷ is_enum "TaskType" ∷ [])
    ∷ field "status" (is_optional ∷ is_enum "TaskStatus" ∷ [])
    ∷ field "priority" (is_optional ∷ is_enum "TaskPriority" ∷ [])
    ∷ field "context" (is_optional ∷ is_enum "TaskContextTag" ∷ [])
    ∷ field "organizationId" (is_optional ∷ is_uuid ∷ [])
    ∷ field "projectId" (is_optional ∷ is_uuid ∷ [])
    ∷ field "sourceMeetingId" (is_optional ∷ is_uuid ∷ [])
    ∷ field "sourceRequirementId" (is_optional ∷ is_uuid ∷ [])
    ∷ field "parentTaskId" (is_optional ∷ is_uuid ∷ [])
    ∷ field "waitingOn" (is_optional ∷ is_string ∷ [])
    ∷ field "deadline" (is_optional ∷ is_date_string ∷ [])
    ∷ field "deadlinePrecision" (is_optional ∷ is_enum "DeadlinePrecision" ∷ [])
    ∷ field "reminderAt" (is_optional ∷ is_date_string ∷ [])
    ∷ field "followUpDate" (is_optional ∷ is_date_string ∷ [])
    ∷ field "sortOrder" (is_optional ∷ type_of "Number" ∷ is_int ∷ [])
    ∷ field "recurrence" (is_optional ∷ validate_nested ∷ type_of "RecurrenceSpecDto" ∷ [])
    ∷ [])

abbrev pub update_task_dto : Dto
update_task_dto = partial create_task_dto []

abbrev pub task_query_dto : Dto
task_query_dto = extending pagination_query_dto (
    field "status" (is_optional ∷ listed ∷ is_enum_each "TaskStatus" ∷ [])
    ∷ field "type" (is_optional ∷ is_enum "TaskType" ∷ [])
    ∷ field "priority" (is_optional ∷ is_enum "TaskPriority" ∷ [])
    ∷ field "context" (is_optional ∷ is_enum "TaskContextTag" ∷ [])
    ∷ field "organizationId" (is_optional ∷ is_uuid ∷ [])
    ∷ field "projectId" (is_optional ∷ is_uuid ∷ [])
    ∷ field "parentTaskId" (is_optional ∷ is_uuid ∷ [])
    ∷ field "recurringSeriesId" (is_optional ∷ is_uuid ∷ [])
    ∷ field "inbox" (is_optional ∷ type_of "Boolean" ∷ is_boolean ∷ [])
    ∷ field "openOnly" (is_optional ∷ type_of "Boolean" ∷ is_boolean ∷ [])
    ∷ field "dueBefore" (is_optional ∷ is_date_string ∷ [])
    ∷ field "q" (is_optional ∷ is_string ∷ [])
    ∷ [])

abbrev pub complete_task_dto : Dto
complete_task_dto = object (field "completedAt" (is_optional ∷ is_date_string ∷ []) ∷ [])

abbrev pub create_checklist_item_dto : Dto
create_checklist_item_dto = object (
    field "id" (is_optional ∷ is_uuid ∷ [])
    ∷ field "label" (is_string ∷ is_not_empty ∷ [])
    ∷ field "done" (is_optional ∷ is_boolean ∷ [])
    ∷ field "position" (is_optional ∷ type_of "Number" ∷ is_int ∷ [])
    ∷ [])

abbrev pub update_checklist_item_dto : Dto
update_checklist_item_dto = partial create_checklist_item_dto []

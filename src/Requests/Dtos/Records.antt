-- ===== src/Requests/Dtos/Records.antt =====
-- modules/requirements, modules/notes and modules/decisions: the bodies and queries of the requests.
use planner_api.Common.{[], ◌∷◌}
use planner_api.Requests.Dto.{
  Dto, object, extending, partial, field, is_optional, is_string, is_not_empty, is_uuid, is_boolean,
  is_date_string, max_length, is_enum, type_of,
}
use planner_api.Requests.Dtos.Paging.{pagination_query_dto}

abbrev pub create_requirement_dto : Dto
create_requirement_dto = object (
    field "id" (is_optional ∷ is_uuid ∷ [])
    ∷ field "title" (is_string ∷ is_not_empty ∷ max_length 500 ∷ [])
    ∷ field "description" (is_optional ∷ is_string ∷ [])
    ∷ field "type" (is_optional ∷ is_enum "RequirementType" ∷ [])
    ∷ field "status" (is_optional ∷ is_enum "RequirementStatus" ∷ [])
    ∷ field "organizationId" (is_optional ∷ is_uuid ∷ [])
    ∷ field "projectId" (is_optional ∷ is_uuid ∷ [])
    ∷ field "sourceMeetingId" (is_optional ∷ is_uuid ∷ [])
    ∷ field "sourceNoteItemId" (is_optional ∷ is_uuid ∷ [])
    ∷ [])

abbrev pub update_requirement_dto : Dto
update_requirement_dto = partial create_requirement_dto []

abbrev pub requirement_query_dto : Dto
requirement_query_dto = extending pagination_query_dto (
    field "status" (is_optional ∷ is_enum "RequirementStatus" ∷ [])
    ∷ field "type" (is_optional ∷ is_enum "RequirementType" ∷ [])
    ∷ field "organizationId" (is_optional ∷ is_uuid ∷ [])
    ∷ field "projectId" (is_optional ∷ is_uuid ∷ [])
    ∷ field "sourceMeetingId" (is_optional ∷ is_uuid ∷ [])
    ∷ field "openOnly" (is_optional ∷ type_of "Boolean" ∷ is_boolean ∷ [])
    ∷ field "q" (is_optional ∷ is_string ∷ [])
    ∷ [])

abbrev pub create_note_dto : Dto
create_note_dto = object (
    field "id" (is_optional ∷ is_uuid ∷ [])
    ∷ field "title" (is_optional ∷ is_string ∷ [])
    ∷ field "body" (is_string ∷ is_not_empty ∷ [])
    ∷ field "organizationId" (is_optional ∷ is_uuid ∷ [])
    ∷ field "projectId" (is_optional ∷ is_uuid ∷ [])
    ∷ field "taskId" (is_optional ∷ is_uuid ∷ [])
    ∷ field "meetingId" (is_optional ∷ is_uuid ∷ [])
    ∷ field "requirementId" (is_optional ∷ is_uuid ∷ [])
    ∷ [])

abbrev pub update_note_dto : Dto
update_note_dto = partial create_note_dto []

abbrev pub note_query_dto : Dto
note_query_dto = extending pagination_query_dto (
    field "organizationId" (is_optional ∷ is_uuid ∷ [])
    ∷ field "projectId" (is_optional ∷ is_uuid ∷ [])
    ∷ field "taskId" (is_optional ∷ is_uuid ∷ [])
    ∷ field "meetingId" (is_optional ∷ is_uuid ∷ [])
    ∷ field "requirementId" (is_optional ∷ is_uuid ∷ [])
    ∷ field "includeArchived" (is_optional ∷ type_of "Boolean" ∷ is_boolean ∷ [])
    ∷ field "q" (is_optional ∷ is_string ∷ [])
    ∷ [])

abbrev pub create_decision_dto : Dto
create_decision_dto = object (
    field "id" (is_optional ∷ is_uuid ∷ [])
    ∷ field "decision" (is_string ∷ is_not_empty ∷ [])
    ∷ field "reason" (is_optional ∷ is_string ∷ [])
    ∷ field "date" (is_optional ∷ is_date_string ∷ [])
    ∷ field "organizationId" (is_optional ∷ is_uuid ∷ [])
    ∷ field "projectId" (is_optional ∷ is_uuid ∷ [])
    ∷ field "sourceMeetingId" (is_optional ∷ is_uuid ∷ [])
    ∷ [])

abbrev pub update_decision_dto : Dto
update_decision_dto = partial create_decision_dto []

abbrev pub decision_query_dto : Dto
decision_query_dto = extending pagination_query_dto (
    field "organizationId" (is_optional ∷ is_uuid ∷ [])
    ∷ field "projectId" (is_optional ∷ is_uuid ∷ [])
    ∷ field "sourceMeetingId" (is_optional ∷ is_uuid ∷ [])
    ∷ field "from" (is_optional ∷ is_date_string ∷ [])
    ∷ field "to" (is_optional ∷ is_date_string ∷ [])
    ∷ field "q" (is_optional ∷ is_string ∷ [])
    ∷ [])

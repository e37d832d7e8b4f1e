-- ===== src/Requests/Dtos/Activity.antt =====
-- modules/activity/activity.dto.ts: the bodies and queries of the requests.
use planner_api.Common.{[], ◌∷◌}
use planner_api.Requests.Dto.{
  Dto, object, extending, partial, field, is_optional, is_string, is_not_empty, is_uuid,
  is_date_string, is_enum,
}
use planner_api.Requests.Dtos.Paging.{pagination_query_dto}

abbrev pub log_activity_dto : Dto
log_activity_dto = object (
    field "id" (is_optional ∷ is_uuid ∷ [])
    ∷ field "description" (is_string ∷ is_not_empty ∷ [])
    ∷ field "source" (is_optional ∷ is_enum "ActivitySource" ∷ [])
    ∷ field "occurredAt" (is_optional ∷ is_date_string ∷ [])
    ∷ field "organizationId" (is_optional ∷ is_uuid ∷ [])
    ∷ field "projectId" (is_optional ∷ is_uuid ∷ [])
    ∷ field "taskId" (is_optional ∷ is_uuid ∷ [])
    ∷ field "meetingId" (is_optional ∷ is_uuid ∷ [])
    ∷ [])

abbrev pub update_activity_dto : Dto
update_activity_dto = partial log_activity_dto []

abbrev pub activity_query_dto : Dto
activity_query_dto = extending pagination_query_dto (
    field "source" (is_optional ∷ is_enum "ActivitySource" ∷ [])
    ∷ field "organizationId" (is_optional ∷ is_uuid ∷ [])
    ∷ field "projectId" (is_optional ∷ is_uuid ∷ [])
    ∷ field "from" (is_optional ∷ is_date_string ∷ [])
    ∷ field "to" (is_optional ∷ is_date_string ∷ [])
    ∷ field "q" (is_optional ∷ is_string ∷ [])
    ∷ [])

abbrev pub review_query_dto : Dto
review_query_dto = object (
    field "from" (is_optional ∷ is_date_string ∷ [])
    ∷ field "to" (is_optional ∷ is_date_string ∷ [])
    ∷ [])

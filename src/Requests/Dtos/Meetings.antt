-- ===== src/Requests/Dtos/Meetings.antt =====
-- modules/meetings/meetings.dto.ts: the bodies and queries of the requests.
use planner_api.Common.{[], ◌∷◌}
use planner_api.Requests.Dto.{
  Dto, object, extending, partial, field, is_optional, is_string, is_not_empty, is_uuid, is_boolean,
  is_int, is_date_string, max_length, is_enum, type_of,
}
use planner_api.Requests.Dtos.Paging.{pagination_query_dto}

abbrev pub create_meeting_dto : Dto
create_meeting_dto = object (
    field "id" (is_optional ∷ is_uuid ∷ [])
    ∷ field "title" (is_string ∷ is_not_empty ∷ max_length 300 ∷ [])
    ∷ field "date" (is_date_string ∷ [])
    ∷ field "organizationId" (is_optional ∷ is_uuid ∷ [])
    ∷ field "projectId" (is_optional ∷ is_uuid ∷ [])
    ∷ field "attendees" (is_optional ∷ is_string ∷ [])
    ∷ field "rawNotes" (is_optional ∷ is_string ∷ [])
    ∷ [])

abbrev pub update_meeting_dto : Dto
update_meeting_dto = partial create_meeting_dto []

abbrev pub meeting_query_dto : Dto
meeting_query_dto = extending pagination_query_dto (
    field "organizationId" (is_optional ∷ is_uuid ∷ [])
    ∷ field "projectId" (is_optional ∷ is_uuid ∷ [])
    ∷ field "from" (is_optional ∷ is_date_string ∷ [])
    ∷ field "to" (is_optional ∷ is_date_string ∷ [])
    ∷ field "q" (is_optional ∷ is_string ∷ [])
    ∷ [])

abbrev pub create_note_item_dto : Dto
create_note_item_dto = object (
    field "id" (is_optional ∷ is_uuid ∷ [])
    ∷ field "content" (is_string ∷ is_not_empty ∷ [])
    ∷ field "position" (is_optional ∷ type_of "Number" ∷ is_int ∷ [])
    ∷ [])

abbrev pub update_note_item_dto : Dto
update_note_item_dto =
    partial create_note_item_dto (field "processed" (is_optional ∷ is_boolean ∷ []) ∷ [])

abbrev pub mark_processed_dto : Dto
mark_processed_dto = object (
    field "resultKind" (is_enum "ProcessedItemKind" ∷ [])
    ∷ field "resultId" (is_optional ∷ is_uuid ∷ [])
    ∷ [])

abbrev pub split_notes_dto : Dto
split_notes_dto = object (field "replace" (is_optional ∷ is_boolean ∷ []) ∷ [])

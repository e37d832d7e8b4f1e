-- ===== src/Requests/Dtos/Uploads.antt =====
-- modules/attachments and modules/voice-notes: the bodies and queries of the requests.
use planner_api.Common.{[], ◌∷◌}
use planner_api.Requests.Dto.{
  Dto, object, extending, partial, field, is_optional, is_string, is_not_empty, is_uuid, is_int,
  min, is_enum, type_of,
}
use planner_api.Requests.Dtos.Paging.{pagination_query_dto}

abbrev pub create_attachment_dto : Dto
create_attachment_dto = object (
    field "id" (is_optional ∷ is_uuid ∷ [])
    ∷ field "kind" (is_enum "AttachmentKind" ∷ [])
    ∷ field "fileName" (is_string ∷ is_not_empty ∷ [])
    ∷ field "mimeType" (is_string ∷ is_not_empty ∷ [])
    ∷ field "sizeBytes" (type_of "Number" ∷ is_int ∷ min 1 ∷ [])
    ∷ field "caption" (is_optional ∷ is_string ∷ [])
    ∷ field "organizationId" (is_optional ∷ is_uuid ∷ [])
    ∷ field "projectId" (is_optional ∷ is_uuid ∷ [])
    ∷ field "taskId" (is_optional ∷ is_uuid ∷ [])
    ∷ field "meetingId" (is_optional ∷ is_uuid ∷ [])
    ∷ field "noteId" (is_optional ∷ is_uuid ∷ [])
    ∷ field "requirementId" (is_optional ∷ is_uuid ∷ [])
    ∷ [])

abbrev pub update_attachment_dto : Dto
update_attachment_dto = partial create_attachment_dto []

abbrev pub request_upload_dto : Dto
request_upload_dto = object (
    field "fileName" (is_string ∷ is_not_empty ∷ [])
    ∷ field "mimeType" (is_string ∷ is_not_empty ∷ [])
    ∷ field "sizeBytes" (type_of "Number" ∷ is_int ∷ min 1 ∷ [])
    ∷ [])

abbrev pub confirm_upload_dto : Dto
confirm_upload_dto = object (field "objectKey" (is_string ∷ is_not_empty ∷ []) ∷ [])

abbrev pub attachment_query_dto : Dto
attachment_query_dto = extending pagination_query_dto (
    field "kind" (is_optional ∷ is_enum "AttachmentKind" ∷ [])
    ∷ field "taskId" (is_optional ∷ is_uuid ∷ [])
    ∷ field "meetingId" (is_optional ∷ is_uuid ∷ [])
    ∷ field "projectId" (is_optional ∷ is_uuid ∷ [])
    ∷ field "noteId" (is_optional ∷ is_uuid ∷ [])
    ∷ field "requirementId" (is_optional ∷ is_uuid ∷ [])
    ∷ [])

abbrev pub create_voice_note_dto : Dto
create_voice_note_dto = object (
    field "id" (is_optional ∷ is_uuid ∷ [])
    ∷ field "title" (is_optional ∷ is_string ∷ [])
    ∷ field "fileName" (is_string ∷ is_not_empty ∷ [])
    ∷ field "mimeType" (is_string ∷ is_not_empty ∷ [])
    ∷ field "sizeBytes" (type_of "Number" ∷ is_int ∷ min 1 ∷ [])
    ∷ field "durationMs" (is_optional ∷ type_of "Number" ∷ is_int ∷ min 0 ∷ [])
    ∷ field "organizationId" (is_optional ∷ is_uuid ∷ [])
    ∷ field "projectId" (is_optional ∷ is_uuid ∷ [])
    ∷ field "taskId" (is_optional ∷ is_uuid ∷ [])
    ∷ field "meetingId" (is_optional ∷ is_uuid ∷ [])
    ∷ field "noteId" (is_optional ∷ is_uuid ∷ [])
    ∷ [])

abbrev pub update_voice_note_dto : Dto
update_voice_note_dto = partial create_voice_note_dto []

abbrev pub voice_note_query_dto : Dto
voice_note_query_dto = extending pagination_query_dto (
    field "taskId" (is_optional ∷ is_uuid ∷ [])
    ∷ field "meetingId" (is_optional ∷ is_uuid ∷ [])
    ∷ field "projectId" (is_optional ∷ is_uuid ∷ [])
    ∷ field "noteId" (is_optional ∷ is_uuid ∷ [])
    ∷ [])

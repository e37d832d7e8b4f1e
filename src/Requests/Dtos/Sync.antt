-- ===== src/Requests/Dtos/Sync.antt =====
-- modules/sync/sync.dto.ts: the bodies and queries of the requests.
use planner_api.Common.{[], ◌∷◌}
use planner_api.Requests.Dto.{
  Dto, object, field, is_optional, is_string, is_not_empty, is_uuid, is_int, is_array, is_object,
  validate_each, min, max, array_max_size, type_of, is_in,
}

abbrev pub sync_change_dto : Dto
sync_change_dto = object (
    field "table" (is_string ∷ is_not_empty ∷ [])
    ∷ field "id" (is_uuid ∷ [])
    ∷ field "op" (is_in ("upsert" ∷ "delete" ∷ []) ∷ [])
    ∷ field "updatedAt" (is_string ∷ is_not_empty ∷ [])
    ∷ field "data" (is_optional ∷ is_object ∷ [])
    ∷ [])

abbrev pub sync_push_dto : Dto
sync_push_dto = object (
    field "deviceId" (is_string ∷ is_not_empty ∷ [])
    ∷ field "platform" (is_optional ∷ is_string ∷ [])
    ∷ field "appVersion" (is_optional ∷ is_string ∷ [])
    ∷ field "changes" (is_array ∷ array_max_size 500 ∷ validate_each ∷ type_of "SyncChangeDto" ∷ [])
    ∷ [])

abbrev pub sync_pull_query_dto : Dto
sync_pull_query_dto = object (
    field "since" (is_optional ∷ is_string ∷ [])
    ∷ field "limit" (is_optional ∷ type_of "Number" ∷ is_int ∷ min 1 ∷ max 2000 ∷ [])
    ∷ field "deviceId" (is_optional ∷ is_string ∷ [])
    ∷ [])

-- ===== src/Requests/Dtos/Paging.antt =====
-- common/dto/pagination-query.dto.ts: the bodies and queries of the requests.
use planner_api.Common.{[], ◌∷◌, false}
use planner_api.Requests.Dto.{
  Dto, object, field_or, is_optional, is_boolean, is_int, min, max, type_of,
}
use planner_api.Common.Int.{pos}
use planner_api.Store.Value.{bool, int}

abbrev pub pagination_query_dto : Dto
pagination_query_dto = object (
    field_or "page" (is_optional ∷ type_of "Number" ∷ is_int ∷ min 1 ∷ []) (int (pos 1))
    ∷ field_or "pageSize" (is_optional ∷ type_of "Number" ∷ is_int ∷ min 1 ∷ max 100 ∷ [])
        (int (pos 25))
    ∷ field_or "includeDeleted" (is_optional ∷ type_of "Boolean" ∷ is_boolean ∷ []) (bool false)
    ∷ [])

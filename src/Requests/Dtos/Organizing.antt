-- ===== src/Requests/Dtos/Organizing.antt =====
-- modules/organizations and modules/projects: the bodies and queries of the requests.
use planner_api.Common.{[], ◌∷◌}
use planner_api.Requests.Dto.{
  Dto, object, extending, partial, field, is_optional, is_string, is_not_empty, is_uuid, is_boolean,
  is_int, max_length, is_enum, type_of,
}
use planner_api.Requests.Dtos.Paging.{pagination_query_dto}

abbrev pub create_organization_dto : Dto
create_organization_dto = object (
    field "id" (is_optional ∷ is_uuid ∷ [])
    ∷ field "name" (is_string ∷ is_not_empty ∷ max_length 200 ∷ [])
    ∷ field "description" (is_optional ∷ is_string ∷ [])
    ∷ field "status" (is_optional ∷ is_enum "OrgStatus" ∷ [])
    ∷ field "favorite" (is_optional ∷ is_boolean ∷ [])
    ∷ field "iconCodePoint" (is_optional ∷ type_of "Number" ∷ is_int ∷ [])
    ∷ field "colorValue" (is_optional ∷ type_of "Number" ∷ is_int ∷ [])
    ∷ field "sortOrder" (is_optional ∷ type_of "Number" ∷ is_int ∷ [])
    ∷ [])

abbrev pub update_organization_dto : Dto
update_organization_dto = partial create_organization_dto []

abbrev pub organization_query_dto : Dto
organization_query_dto = extending pagination_query_dto (
    field "status" (is_optional ∷ is_enum "OrgStatus" ∷ [])
    ∷ field "q" (is_optional ∷ is_string ∷ [])
    ∷ [])

abbrev pub create_project_dto : Dto
create_project_dto = object (
    field "id" (is_optional ∷ is_uuid ∷ [])
    ∷ field "organizationId" (is_optional ∷ is_uuid ∷ [])
    ∷ field "name" (is_string ∷ is_not_empty ∷ max_length 200 ∷ [])
    ∷ field "description" (is_optional ∷ is_string ∷ [])
    ∷ field "status" (is_optional ∷ is_enum "ProjectStatus" ∷ [])
    ∷ field "favorite" (is_optional ∷ is_boolean ∷ [])
    ∷ field "iconCodePoint" (is_optional ∷ type_of "Number" ∷ is_int ∷ [])
    ∷ field "colorValue" (is_optional ∷ type_of "Number" ∷ is_int ∷ [])
    ∷ field "sortOrder" (is_optional ∷ type_of "Number" ∷ is_int ∷ [])
    ∷ [])

abbrev pub update_project_dto : Dto
update_project_dto = partial create_project_dto []

abbrev pub project_query_dto : Dto
project_query_dto = extending pagination_query_dto (
    field "status" (is_optional ∷ is_enum "ProjectStatus" ∷ [])
    ∷ field "organizationId" (is_optional ∷ is_uuid ∷ [])
    ∷ field "unassigned" (is_optional ∷ type_of "Boolean" ∷ is_boolean ∷ [])
    ∷ field "q" (is_optional ∷ is_string ∷ [])
    ∷ [])

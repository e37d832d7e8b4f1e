-- ===== src/Resources.antt =====
-- modules/organizations, modules/projects, modules/decisions, modules/requirements and modules/notes:
-- their services, over the scoped operations.
pub mod Scoped
use planner_api.Common.{
  ℕ, String, Bool, true, false, not, ◌||◌, Option, none, some, List, [], ◌∷◌, ◌++◌, if◌then◌else◌,
}
use planner_api.Store.Value.{Value, null, str, date, Row, get, spread, or_else, truthy}
use planner_api.Store.Query.{Where, put, equals, is_in, is_null, gte, lte, between, matches_any}
use planner_api.Store.Db.{Order}
use planner_api.Store.Action.{Action, pure, ◌>>=◌, ◌>>◌, Env, now}
use planner_api.Crud.{assert_owned_or_null, ListOptions, Paginated}
use planner_api.Crud
use planner_api.Tasks.{date_or_null}

-- The filters of a query: texts by column, the search text, and the flags and dates that some have.
pub record ResourceQuery : Type 0 where
  pub options : ListOptions
  pub equal : List (String × String)
  pub flag : Bool
  pub from : Option ℕ
  pub to : Option ℕ
  pub q : Option String

-- `if (query[key]) where[key] = query[key]`, for the keys that are given, in their order.
abbrev pub put_given : List (String × String) → Where → Where
put_given [] w = w
put_given ((k, v) ∷ l) w = put_given l (put k (equals (str v)) w)

abbrev pub put_words : List String → Option String → Where → Where
put_words columns none w = w
put_words columns (some q) w = put "OR" (matches_any columns q) w

abbrev pub put_range : String → Option ℕ → Option ℕ → Where → Where
put_range column none none w = w
put_range column (some a) none w = put column (gte a) w
put_range column none (some b) w = put column (lte b) w
put_range column (some a) (some b) w = put column (between a b) w

unfoldable pub organization_where : ResourceQuery → Where
organization_where query =
    put_words ("name" ∷ "description" ∷ []) query.q (put_given query.equal [])

-- The flag is `unassigned`.
unfoldable pub project_where : ResourceQuery → Where
project_where query =
    let given = put_given query.equal [] in
    put_words ("name" ∷ "description" ∷ []) query.q
      (if query.flag then put "organizationId" is_null given else given)

unfoldable pub decision_where : ResourceQuery → Where
decision_where query =
    put_words ("decision" ∷ "reason" ∷ []) query.q
      (put_range "date" query.from query.to (put_given query.equal []))

-- The flag is `openOnly`, which overrides a status.
unfoldable pub requirement_where : List (String × String) → ResourceQuery → Where
requirement_where status query =
    let given = put_given status [] in
    let open_ones =
      (if query.flag
        then put "status" (is_in ("unreviewed" ∷ "accepted" ∷ "planned" ∷ [])) given
        else given) in
    put_words ("title" ∷ "description" ∷ []) query.q (put_given query.equal open_ones)

-- The flag is `includeArchived`.
unfoldable pub note_where : ResourceQuery → Where
note_where query =
    let given = put_given query.equal [] in
    put_words ("title" ∷ "body" ∷ []) query.q
      (if query.flag then given else put "archivedAt" is_null given)

module _ (env : Env) (user : String) where
  -- A series of `await this.assertOwnedOrNull(userId, model, dto.column)`.
  unfoldable pub assert_links : List (String × String) → Row → Action (Unit {0})
  assert_links [] dto = pure tt
  assert_links ((model, column) ∷ l) dto = do
    assert_owned_or_null env user model (get column dto)
    assert_links l dto

  abbrev pub filed : List (String × String)
  filed = ("organization", "organizationId") ∷ ("project", "projectId") ∷ []

  abbrev pub sourced : List (String × String)
  sourced =
      ("organization", "organizationId")
      ∷ ("project", "projectId")
      ∷ ("meeting", "sourceMeetingId")
      ∷ []

  abbrev pub note_links : List (String × String)
  note_links =
      ("organization", "organizationId")
      ∷ ("project", "projectId")
      ∷ ("task", "taskId")
      ∷ ("meeting", "meetingId")
      ∷ ("requirement", "requirementId")
      ∷ []

  unfoldable pub create_organization : Row → Action Row
  create_organization dto =
      Crud.create env "organization" user
        (spread dto (("status", or_else (get "status" dto) (str "active")) ∷ []))

  unfoldable pub update_organization : String → Row → Action Row
  update_organization id dto = Crud.update env "organization" user id dto

  unfoldable pub create_project : Row → Action Row
  create_project dto = do
    assert_owned_or_null env user "organization" (get "organizationId" dto)
    Crud.create env "project" user
        (spread dto (("status", or_else (get "status" dto) (str "active")) ∷ []))

  unfoldable pub update_project : String → Row → Action Row
  update_project id dto = do
    assert_owned_or_null env user "organization" (get "organizationId" dto)
    Crud.update env "project" user id dto

  -- `dto.date ? new Date(dto.date) : new Date()`
  abbrev pub date_or_now : Value → Action Value
  date_or_now v = if truthy v then pure (date_or_null env v) else (do t ← now env; pure (date t))

  unfoldable pub create_decision : Row → Action Row
  unfolding assert_links
  create_decision dto = do
    assert_links sourced dto
    day ← date_or_now (get "date" dto)
    Crud.create env "decision" user (spread dto (("date", day) ∷ []))

  abbrev pub dated : Row → Row
  dated dto =
      if truthy (get "date" dto) then ("date", date_or_null env (get "date" dto)) ∷ [] else []

  unfoldable pub update_decision : String → Row → Action Row
  update_decision id dto = Crud.update env "decision" user id (spread dto (dated dto))

  unfoldable pub create_requirement : Row → Action Row
  unfolding assert_links
  create_requirement dto = do
    assert_links sourced dto
    Crud.create env "requirement" user (
        spread dto (
          ("type", or_else (get "type" dto) (str "requirement"))
          ∷ ("status", or_else (get "status" dto) (str "unreviewed"))
          ∷ []))

  unfoldable pub update_requirement : String → Row → Action Row
  unfolding assert_links
  update_requirement id dto = do assert_links filed dto; Crud.update env "requirement" user id dto

  unfoldable pub create_note : Row → Action Row
  unfolding assert_links
  create_note dto = do assert_links note_links dto; Crud.create env "note" user dto

  unfoldable pub update_note : String → Row → Action Row
  unfolding assert_links
  update_note id dto = do assert_links note_links dto; Crud.update env "note" user id dto

  unfoldable pub archive : String → Action Row
  archive id = do t ← now env; Crud.update env "note" user id (("archivedAt", date t) ∷ [])

  unfoldable pub unarchive : String → Action Row
  unarchive id = Crud.update env "note" user id (("archivedAt", null) ∷ [])

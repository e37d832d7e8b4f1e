-- ===== src/Tasks/Query.antt =====
-- modules/tasks/tasks.service.ts: the queries.
use planner_api.Common.{ℕ, String, Bool, Option, none, some, List, [], ◌∷◌, if◌then◌else◌}
use planner_api.Store.Value.{str, Row}
use planner_api.Store.Query.{Where, put, equals, is_in, is_null, lte, matches_any}
use planner_api.Store.Db.{Order}
use planner_api.Store.Action.{Action, Env}
use planner_api.Store.Action
use planner_api.Crud.{ListOptions, Paginated}
use planner_api.Crud

-- `TaskQueryDto`; a text that is not given is none.
pub record TaskQuery : Type 0 where
  pub options : ListOptions
  pub status : List String
  pub open_only : Bool
  pub inbox : Bool
  pub equal : List (String × String)
  pub due_before : Option ℕ
  pub q : Option String

abbrev put_status : List String → Where → Where
put_status [] w = w
put_status l w = put "status" (is_in l) w

-- The filters on type, priority, context, organization, project, parent and series, in this order.
abbrev put_all : List (String × String) → Where → Where
put_all [] w = w
put_all ((k, v) ∷ l) w = put_all l (put k (equals (str v)) w)

abbrev put_due : Option ℕ → Where → Where
put_due none w = w
put_due (some t) w = put "deadline" (lte t) w

abbrev put_search : Option String → Where → Where
put_search none w = w
put_search (some q) w = put "OR" (matches_any ("title" ∷ "description" ∷ []) q) w

unfoldable pub task_where : TaskQuery → Where
task_where query =
    let status = put_status query.status [] in
    let open_ones =
      (if query.open_only
        then put "status" (is_in ("next" ∷ "inProgress" ∷ "waiting" ∷ [])) status
        else status) in
    let due = put_due query.due_before (put_all query.equal open_ones) in
    let filed =
      (if query.inbox then put "projectId" is_null (put "organizationId" is_null due) else due) in
    put_search query.q filed

unfoldable pub find : Env → String → TaskQuery → Order → Action Paginated
unfolding task_where
find env user query le = Crud.list env "task" user query.options (task_where query) le

-- The occurrences of a series, the database's rows in the order of the query.
unfoldable pub series_history : Env → String → String → Order → Action (List Row)
series_history env user series latest_first =
    Action.find_many env "task"
      (("userId", equals (str user))
        ∷ ("recurringSeriesId", equals (str series))
        ∷ ("deletedAt", is_null)
        ∷ [])
      latest_first

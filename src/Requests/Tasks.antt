-- ===== src/Requests/Tasks.antt =====
-- modules/tasks/tasks.controller.ts: the routes of tasks and of their checklists.
use planner_api.Common.{if◌then◌else◌, ℕ, String, Option, none, false}
use planner_api.Store.Value.{Value, Row, get, truthy}
use planner_api.Store.Db.{Order}
use planner_api.Store.Action.{Action, pure, ◌>>=◌, ◌>>◌, Env}
use planner_api.Crud.{find_one}
use planner_api.Crud
use planner_api.Recurrence.Spawn.{Zone}
use planner_api.Tasks.{create_task, update_task, drop_task, remove_task}
use planner_api.Tasks
use planner_api.Tasks.Query.{TaskQuery, find, series_history}
use planner_api.Tasks.Checklist
use planner_api.Tasks.Checklist.{add_checklist_item, update_checklist_item, remove_checklist_item}
use planner_api.Requests.Dtos.Tasks.{
  create_task_dto, update_task_dto, recurrence_spec_dto, complete_task_dto,
  create_checklist_item_dto, update_checklist_item_dto,
}
use planner_api.Requests.Answer.{Answer, row, rows, page, completion}
use planner_api.Requests.Validation.{Pipe, validated, validated_nested, uuid_param, without}

-- A request to the controller; the query of a list is the validated one.
pub data TaskRoute : Type 0 where
  list : TaskQuery → TaskRoute
  create : Row → Option Row → TaskRoute
  series one restore reopen drop carry_forward remove checklist : String → TaskRoute
  update complete add_item update_item : String → Row → TaskRoute
  remove_item : String → TaskRoute

-- The instant that a validated date text names, none if it is not given.
abbrev pub given_instant : Env → Value → Option ℕ
given_instant env v = if truthy v then env.new_date v else none

module _ (env : Env) (zone : Zone) (pipe : Pipe) (le : Order) (user : String) where
  -- The handlers of TasksController, with the parameters' pipes in front; `le` is the order that
  -- the query asks the database for.
  unfoldable pub handle_task : TaskRoute → Action Answer
  handle_task (list query) = do found ← find env user query le; pure (page found)
  handle_task (create body recurrence) = do
    dto ← validated pipe create_task_dto body
    spec ← validated_nested pipe recurrence_spec_dto recurrence
    made ← create_task env zone user (without "recurrence" dto) spec
    pure (row made)
  handle_task (series id) = do
    uuid_param pipe id
    found ← series_history env user id le
    pure (rows found)
  handle_task (one id) = do
    uuid_param pipe id
    found ← find_one env "task" user id false
    pure (row found)
  handle_task (update id body) = do
    uuid_param pipe id
    dto ← validated pipe update_task_dto body
    changed ← update_task env zone user id (without "recurrence" dto)
    pure (row changed)
  handle_task (complete id body) = do
    uuid_param pipe id
    dto ← validated pipe complete_task_dto body
    (task, following) ← Tasks.complete env zone user id (given_instant env (get "completedAt" dto))
    pure (completion task following)
  handle_task (reopen id) = do
    uuid_param pipe id
    task ← Tasks.reopen env zone user id
    pure (row task)
  handle_task (drop id) = do uuid_param pipe id; task ← drop_task env zone user id; pure (row task)
  handle_task (carry_forward id) = do
    uuid_param pipe id
    task ← Tasks.carry_forward env zone user id
    pure (row task)
  handle_task (remove id) = do
    uuid_param pipe id
    task ← remove_task env zone user id
    pure (row task)
  handle_task (restore id) = do
    uuid_param pipe id
    task ← Crud.restore env "task" user id
    pure (row task)
  handle_task (checklist id) = do
    uuid_param pipe id
    items ← Checklist.checklist env user id
    pure (rows items)
  handle_task (add_item id body) = do
    uuid_param pipe id
    dto ← validated pipe create_checklist_item_dto body
    item ← add_checklist_item env user id dto
    pure (row item)
  handle_task (update_item id body) = do
    uuid_param pipe id
    dto ← validated pipe update_checklist_item_dto body
    item ← update_checklist_item env user id dto
    pure (row item)
  handle_task (remove_item id) = do
    uuid_param pipe id
    item ← remove_checklist_item env user id
    pure (row item)

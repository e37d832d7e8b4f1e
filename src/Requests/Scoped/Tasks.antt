-- ===== src/Requests/Scoped/Tasks.antt =====
-- The routes of tasks and of meetings.
use planner_api.Common.{ℕ, String, ◌≡◌, refl, false, Option, none, []}
use planner_api.Store.Value.{Row, get, has, spread}
use planner_api.Store.Db.{Order, defined, KeepsId, ok}
use planner_api.Store.Action.{Env}
use planner_api.Crud.{find_one}
use planner_api.Crud.Keeps.{
  keeps_rules, Keeps-find_one_read, Keeps, Keeps-pure, Keeps-bind, Keeps-find_many,
}
use planner_api.Crud.Scoped.{Keeps-crud_restore}
use planner_api.Recurrence.Spawn.{Zone, by_position}
use planner_api.Tasks.Scoped.{tasks-Isolated, Keeps-create_task}
use planner_api.Tasks.Checklist.Scoped.{checklist-Isolated}
use planner_api.Tasks.Query.{TaskQuery, find, series_history}
use planner_api.Tasks.Checklist
use planner_api.Tasks
use planner_api.Tasks.{patched}
use planner_api.Crud
use planner_api.Requests.Dtos.Tasks.{update_task_dto}
use planner_api.Requests.Dto.{fields}
use planner_api.Requests.Answer.{row, rows, page}
use planner_api.Requests.Validation.{Pipe, Validates, without}
use planner_api.Requests.Tasks.{
  TaskRoute, list, create, series, one, restore, reopen, drop, carry_forward, remove, checklist,
  update, complete, add_item, update_item, remove_item, handle_task, given_instant,
}
use planner_api.Requests.Scoped.{
  Keeps-answer, Keeps-at, Keeps-uuid_param, Keeps-validated, Keeps-validated_nested, has-without,
  has-patched,
}

module _ (pipe : Pipe) where
  -- Where a task is patched, what the pipe makes of the body names no other id.
  abbrev pub KeepsTaskId : TaskRoute → Type 0
  KeepsTaskId (update id body) =
      (dto : Row)
      → pipe.transform update_task_dto body ≡ ok dto
      → KeepsId id (without "recurrence" dto)
  KeepsTaskId _ = Unit

module _ (env : Env) (zone : Zone) (pipe : Pipe) (le : Order) (user : String)
    (law : Validates pipe) where
  on_task :
      (fields : Row)
      → has "userId" fields ≡ false
      → has "userId" (defined (spread fields (patched env zone user fields))) ≡ false
  on_task = has-patched env zone user

  Keeps-complete :
      (id : String) (at : Option ℕ) → Keeps user [] (Tasks.complete env zone user id at)
  Keeps-complete id at = record {
    at = λ s h. (tasks-Isolated env zone user id [] none at s refl refl).2;
  }

  Keeps-find : (query : TaskQuery) → Keeps user [] (find env user query le)
  unfolding find Crud.list
  Keeps-find query = search keeps_rules depth 9

  Keeps-series : (id : String) → Keeps user [] (series_history env user id le)
  unfolding series_history
  Keeps-series id = Keeps-find_many user [] env "task" _ le

  Keeps-one : (id : String) → Keeps user [] (find_one env "task" user id false)
  Keeps-one id = Keeps-find_one_read user [] env "task" id false

  Keeps-checklist : (id : String) → Keeps user [] (Checklist.checklist env user id)
  unfolding Checklist.checklist
  Keeps-checklist id = Keeps-find_many user [] env "checklistItem" _ by_position

  -- Every route of TasksController leaves the rows and the counter of everybody else as they are.
  pub Keeps-handle_task :
      (route : TaskRoute)
      → KeepsTaskId pipe route
      → Keeps user [] (handle_task env zone pipe le user route)
  unfolding handle_task fields
  Keeps-handle_task (list query) same =
      Keeps-answer pipe user (find env user query le) page λ s. (Keeps-find query).at s tt
  Keeps-handle_task (create body recurrence) same = Keeps-validated pipe user _ body _ λ dto e.
      Keeps-validated_nested pipe user _ recurrence _ λ spec.
        Keeps-answer pipe user _ row
          λ s. (Keeps-create_task env zone user [] (without "recurrence" dto) spec).at s tt
  Keeps-handle_task (series id) same = Keeps-at pipe user id _ rows λ s. (Keeps-series id).at s tt
  Keeps-handle_task (one id) same = Keeps-at pipe user id _ row λ s. (Keeps-one id).at s tt
  Keeps-handle_task (update id body) same = Keeps-uuid_param pipe user id _ (
      Keeps-validated pipe user _ body _ λ dto e. Keeps-answer pipe user _ row λ s.
        (tasks-Isolated env zone user id (without "recurrence" dto) none none s
          (on_task (without "recurrence" dto) (
            has-without "recurrence" "userId" dto
              (law.whitelisted update_task_dto body dto e "userId" refl)))
          (same dto e)).1)
  Keeps-handle_task (complete id body) same = Keeps-uuid_param pipe user id _ (
      Keeps-validated pipe user _ body _ λ dto e.
        Keeps-bind user [] _ _ (Keeps-complete id (given_instant env (get "completedAt" dto)))
          λ r. Keeps-pure user [] _)
  Keeps-handle_task (reopen id) same =
      Keeps-at pipe user id _ row λ s. (tasks-Isolated env zone user id [] none none s refl refl).3
  Keeps-handle_task (drop id) same =
      Keeps-at pipe user id _ row λ s. (tasks-Isolated env zone user id [] none none s refl refl).4
  Keeps-handle_task (carry_forward id) same =
      Keeps-at pipe user id _ row λ s. (tasks-Isolated env zone user id [] none none s refl refl).5
  Keeps-handle_task (remove id) same =
      Keeps-at pipe user id _ row λ s. (tasks-Isolated env zone user id [] none none s refl refl).6
  Keeps-handle_task (restore id) same =
      Keeps-at pipe user id _ row λ s. (Keeps-crud_restore env user [] "task" id).at s tt
  Keeps-handle_task (checklist id) same =
      Keeps-at pipe user id _ rows λ s. (Keeps-checklist id).at s tt
  Keeps-handle_task (add_item id body) same = Keeps-uuid_param pipe user id _ (
      Keeps-validated pipe user _ body _
        λ dto e. Keeps-answer pipe user _ row λ s. (checklist-Isolated env user id dto s).0)
  Keeps-handle_task (update_item id body) same = Keeps-uuid_param pipe user id _ (
      Keeps-validated pipe user _ body _
        λ dto e. Keeps-answer pipe user _ row λ s. (checklist-Isolated env user id dto s).1)
  Keeps-handle_task (remove_item id) same =
      Keeps-at pipe user id _ row λ s. (checklist-Isolated env user id [] s).2

-- ===== src/Tasks/Checklist.antt =====
-- modules/tasks/tasks.service.ts: the checklist of a task, and its series.
pub mod Scoped
use planner_api.Common.{String, false, Option, none, some, List, [], ◌∷◌, ◌++◌}
use planner_api.Common.Int.{pos}
use planner_api.Store.Value.{bool, int, str, date, big, Row, get, or_else}
use planner_api.Store.Query.{equals, is_null}
use planner_api.Store.Db.{bad_request}
use planner_api.Store.Action.{Action, pure, throw, ◌>>=◌, ◌>>◌, Env, now}
use planner_api.Store.Action
use planner_api.Crud.{next, find_one, id_or_uuid, or_throw}
use planner_api.Recurrence.Spawn.{by_position}
use planner_api.Tasks.{if_sent, parts_of}

module _ (env : Env) (user : String) where
  unfoldable pub checklist : String → Action (List Row)
  checklist task_id = Action.find_many env "checklistItem" (parts_of user task_id) by_position

  unfoldable pub add_checklist_item : String → Row → Action Row
  add_checklist_item task_id dto = do
    find_one env "task" user task_id false
    at ← now env
    id ← id_or_uuid env (get "id" dto)
    seq ← next user
    Action.create env "checklistItem" (
        ("id", id)
        ∷ ("userId", str user)
        ∷ ("taskId", str task_id)
        ∷ ("label", get "label" dto)
        ∷ ("done", or_else (get "done" dto) (bool false))
        ∷ ("position", or_else (get "position" dto) (int (pos 0)))
        ∷ ("createdAt", date at)
        ∷ ("updatedAt", date at)
        ∷ ("seq", big seq)
        ∷ [])

  unfoldable pub owned_checklist_item : String → Action Row
  owned_checklist_item id = do
    item ←
        Action.find_first env "checklistItem"
          (("id", equals (str id)) ∷ ("userId", equals (str user)) ∷ ("deletedAt", is_null) ∷ [])
    or_throw item (throw (bad_request "Checklist item not found"))

  unfoldable pub update_checklist_item : String → Row → Action Row
  unfolding owned_checklist_item
  update_checklist_item id dto = do
    owned_checklist_item id
    at ← now env
    seq ← next user
    Action.update env "checklistItem" id (
        if_sent (get "label" dto) (("label", get "label" dto) ∷ [])
        ++ (if_sent (get "done" dto) (("done", get "done" dto) ∷ [])
            ++ (if_sent (get "position" dto) (("position", get "position" dto) ∷ [])
                ++ (("updatedAt", date at) ∷ ("seq", big seq) ∷ []))))

  unfoldable pub remove_checklist_item : String → Action Row
  unfolding owned_checklist_item
  remove_checklist_item id = do
    owned_checklist_item id
    at ← now env
    seq ← next user
    Action.update env "checklistItem" id
        (("deletedAt", date at) ∷ ("updatedAt", date at) ∷ ("seq", big seq) ∷ [])

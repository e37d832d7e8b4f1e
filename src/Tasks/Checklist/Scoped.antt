-- ===== src/Tasks/Checklist/Scoped.antt =====
-- Whatever is done to a checklist stays with its owner.
use planner_api.Common.{String, ◌≡◌, refl, false, [], ◌∷◌, ◌++◌, arith, Bool-cases, ◌==◌, inl, inr}
use planner_api.Store.Value.{Value, date, big, Row, get, has, is_undefined}
use planner_api.Store.Db.{defined}
use planner_api.Store.Links.{is_referenced}
use planner_api.Store.Action.{Action, World, ◌>>=◌, Env}
use planner_api.Crud.Isolation.{Isolated, KeepsOwner-has}
use planner_api.Crud.Keeps.{
  Keeps, Keeps-bind, Keeps-now, Keeps-next, Keeps-create, Keeps-update, Keeps-update_leaf,
  Keeps-find_one,
}
use planner_api.Crud.Reads.{Keeps-owned_item}
use planner_api.Crud.Scoped.{Keeps-id_or_uuid}
use planner_api.Tasks.{if_sent}
use planner_api.Tasks.Checklist.{
  owned_checklist_item, add_checklist_item, update_checklist_item, remove_checklist_item,
}

pub sent_names_no_user :
    (k : String) (v : Value) (rest : Row)
    → (k == "userId") ≡ false
    → has "userId" (defined rest) ≡ false
    → has "userId" (defined (if_sent v ((k, v) ∷ []) ++ rest)) ≡ false
sent_names_no_user k v rest n h = elim (Bool-cases (is_undefined v)) [
  | inl e ↦ rw e h
  | inr e ↦ rw e (rw e (rw n h))
]

module _ (env : Env) (user : String) where
  -- What follows `ownedChecklistItem` may treat the item as the caller's.
  Keeps-owned_checklist_item :
      {B : Type 0} (id : String) (f : Row → Action B)
      → ((r : Row) → Keeps user (("checklistItem", id) ∷ []) (f r))
      → Keeps user [] (owned_checklist_item env user id >>= f)
  unfolding owned_checklist_item
  Keeps-owned_checklist_item id f kf = Keeps-owned_item user [] env "checklistItem" id _ f kf

  Keeps-add_checklist_item :
      (task_id : String) (dto : Row) → Keeps user [] (add_checklist_item env user task_id dto)
  unfolding add_checklist_item
  Keeps-add_checklist_item task_id dto =
      Keeps-find_one user [] env "task" task_id false _ λ task found.
        Keeps-bind user _ _ _ (Keeps-now user _ env) λ at.
          Keeps-bind user _ _ _ (Keeps-id_or_uuid env user _ (get "id" dto)) λ id.
            Keeps-bind user _ _ _ (Keeps-next user _)
              λ seq. Keeps-create user _ env "checklistItem" _ (ground arith)

  Keeps-update_checklist_item :
      (id : String) (dto : Row) → Keeps user [] (update_checklist_item env user id dto)
  unfolding update_checklist_item is_referenced
  Keeps-update_checklist_item id dto = Keeps-owned_checklist_item id _ λ item.
      Keeps-bind user _ _ _ (Keeps-now user _ env) λ at.
        Keeps-bind user _ _ _ (Keeps-next user _) λ seq.
          let stamps : Row = ("updatedAt", date at) ∷ ("seq", big seq) ∷ [] in
          let placed : Row =
            if_sent (get "position" dto) (("position", get "position" dto) ∷ []) ++ stamps in
          let ticked : Row = if_sent (get "done" dto) (("done", get "done" dto) ∷ []) ++ placed in
          let by_place = sent_names_no_user "position" (get "position" dto) stamps refl refl in
          let by_tick = sent_names_no_user "done" (get "done" dto) placed refl by_place in
          Keeps-update_leaf user _ env "checklistItem" id _ (inl refl)
            (KeepsOwner-has user _
              (sent_names_no_user "label" (get "label" dto) ticked refl by_tick))
            refl

  Keeps-remove_checklist_item : (id : String) → Keeps user [] (remove_checklist_item env user id)
  unfolding remove_checklist_item
  Keeps-remove_checklist_item id = Keeps-owned_checklist_item id _ λ item.
      Keeps-bind user _ _ _ (Keeps-now user _ env) λ at.
        Keeps-bind user _ _ _ (Keeps-next user _) λ seq.
          Keeps-update user _ env "checklistItem" id _ (inl refl) (KeepsOwner-has user _ refl) refl

-- Whatever a caller adds to, changes in or removes from a checklist leaves the rows and the sequence
-- counter of every other user as they are, also when the operation throws.
pub checklist-Isolated :
    (env : Env) (user id : String) (dto : Row) (s : World)
    → Isolated user s.db (add_checklist_item env user id dto s).1.db
      × Isolated user s.db (update_checklist_item env user id dto s).1.db
      × Isolated user s.db (remove_checklist_item env user id s).1.db
checklist-Isolated env user id dto s = (
  (Keeps-add_checklist_item env user id dto).at s tt,
  (Keeps-update_checklist_item env user id dto).at s tt,
  (Keeps-remove_checklist_item env user id).at s tt,
)

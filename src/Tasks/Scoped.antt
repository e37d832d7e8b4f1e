-- ===== src/Tasks/Scoped.antt =====
-- Whatever is done to a task stays with its owner.
use planner_api.Common.{
  ℕ, ◌+◌, String, ◌≡◌, refl, true, false, Bool-cases, Option, none, some, List, [], ◌∷◌, arith,
  Occurs, Occurs-append_left, Occurs-append_right, inl, inr, length,
}
use planner_api.Store.Value.{Value, date, big, Row, get, has, id_of, spread, is_undefined}
use planner_api.Store.Query.{matches}
use planner_api.Store.Db.{defined, keeps_links, KeepsId}
use planner_api.Store.Effects.{keeps_links-append}
use planner_api.Store.Action.{World, Env}
use planner_api.Crud.Rows.{text_of_value_eq}
use planner_api.Crud.Isolation.{Isolated, KeepsOwner-has, KeepsOwner}
use planner_api.Crud.Keeps.{
  Keeps, Keeps-pure, Keeps-throw, Keeps-throw_if, Keeps-bind, Keeps-if, Keeps-transaction,
  Keeps-allocate, Keeps-next, Keeps-now, Keeps-random_uuid, Keeps-find_first, Keeps-find_many,
  Keeps-create, Keeps-update, Keeps-find_one,
}
use planner_api.Crud.Scoped.{Keeps-assert_owned_or_null, Keeps-crud_create, Keeps-crud_update}
use planner_api.Crud.Reads.{ids, Occurs-ids, AsksOwn, Keeps-find_many_own}
use planner_api.Recurrence.{RecurrenceSpec}
use planner_api.Recurrence.Calendar.{Date}
use planner_api.Recurrence.Spawn.{
  Zone, copy_items, spawn_unless, spawn_due, spawn_by, spawn_next_occurrence, by_position,
}
use planner_api.Tasks.{
  check_parent, assert_parent, assert_parents, create_recurrence_rule, create_with, create_by,
  create_task, update_task, patched, finish, complete, completion_time, reopen, drop_task,
  carry_forward, touch_all, remove_task, parts_of, any_order, plus_one,
}

module _ (env : Env) (zone : Zone) (user : String) where
  Keeps-copy_items :
      (g : List (String × String)) (items : List Row) (task : Value) (at seq : ℕ)
      → Keeps user g (copy_items env zone user items task at seq)
  unfolding copy_items
  Keeps-copy_items g [] task at seq = Keeps-pure user g tt
  Keeps-copy_items g (item ∷ items) task at seq =
      Keeps-bind user g _ _ (Keeps-random_uuid user g env) λ id.
        Keeps-bind user g _ _ (Keeps-create user g env "checklistItem" _ refl)
          λ made. Keeps-copy_items g items task at (seq + 1)

  Keeps-spawn_unless :
      (g : List (String × String)) (spec : RecurrenceSpec) (completed : Row) (due : Date)
      (o : Option Row)
      → Keeps user g (spawn_unless env zone user spec completed due o)
  unfolding spawn_unless
  Keeps-spawn_unless g spec completed due (some r) = Keeps-pure user g (some r)
  Keeps-spawn_unless g spec completed due none = Keeps-bind user g _ _ (Keeps-now user g env) λ at.
      Keeps-bind user g _ _ (Keeps-random_uuid user g env) λ id.
        Keeps-bind user g _ _ (Keeps-find_many user g env "checklistItem" _ by_position) λ items.
          Keeps-bind user g _ _ (Keeps-allocate user g (1 + length items)) λ base.
            Keeps-transaction user g _ (
              Keeps-bind user g _ _ (Keeps-create user g env "task" _ refl) λ made.
                Keeps-bind user g _ _ (Keeps-copy_items g items _ at _)
                  λ u. Keeps-pure user g (some made))

  Keeps-spawn_due :
      (g : List (String × String)) (spec : RecurrenceSpec) (completed : Row) (due : Option Date)
      → Keeps user g (spawn_due env zone user spec completed due)
  unfolding spawn_due
  Keeps-spawn_due g spec completed none = Keeps-pure user g none
  Keeps-spawn_due g spec completed (some due) =
      Keeps-bind user g _ _ (Keeps-find_first user g env "task" _)
        λ o. Keeps-spawn_unless g spec completed due o

  Keeps-spawn_by :
      (g : List (String × String)) (completed : Row) (at : Value) (rule : Option Row)
      → Keeps user g (spawn_by env zone user completed at rule)
  unfolding spawn_by
  Keeps-spawn_by g completed at none = Keeps-pure user g none
  Keeps-spawn_by g completed at (some rule) = Keeps-spawn_due g _ completed _

  pub Keeps-spawn_next_occurrence :
      (g : List (String × String)) (completed : Row) (at : Value)
      → Keeps user g (spawn_next_occurrence env zone user completed at)
  unfolding spawn_next_occurrence
  Keeps-spawn_next_occurrence g completed at = Keeps-if user g _ _ _ (Keeps-pure user g none) (
      Keeps-bind user g _ _ (Keeps-find_first user g env "recurrenceRule" _)
        λ rule. Keeps-spawn_by g completed at rule)

  Keeps-assert_parent :
      (g : List (String × String)) (id : Value) → Keeps user g (assert_parent env zone user id)
  unfolding assert_parent
  Keeps-assert_parent g id =
      Keeps-if user g _ _ _
        (Keeps-bind user g _ _ (Keeps-find_first user g env "task" _) λ o. parent o)
        (Keeps-pure user g tt)
    where
      parent : (o : Option Row) → Keeps user g (check_parent env zone user o)
      parent none = Keeps-throw user g _
      parent (some r) = Keeps-throw_if user g _ _

  Keeps-assert_parents :
      (g : List (String × String)) (dto : Row) → Keeps user g (assert_parents env zone user dto)
  unfolding assert_parents
  Keeps-assert_parents g dto =
      Keeps-bind user g _ _ (Keeps-assert_owned_or_null env user g _ _) λ a.
        Keeps-bind user g _ _ (Keeps-assert_owned_or_null env user g _ _) λ b.
          Keeps-bind user g _ _ (Keeps-assert_owned_or_null env user g _ _) λ c.
            Keeps-bind user g _ _ (Keeps-assert_owned_or_null env user g _ _)
              λ d. Keeps-assert_parent g (get "parentTaskId" dto)

  Keeps-create_with :
      (g : List (String × String)) (fields : Row) (rule series reminder : Value)
      → Keeps user g (create_with env zone user fields rule series reminder)
  unfolding create_with
  Keeps-create_with g fields rule series reminder = Keeps-crud_create env user g "task" _

  Keeps-create_by :
      (g : List (String × String)) (fields : Row) (recurrence : Option Row)
      → Keeps user g (create_by env zone user fields recurrence)
  unfolding create_by create_recurrence_rule
  Keeps-create_by g fields none = Keeps-create_with g fields _ _ _
  Keeps-create_by g fields (some dto) =
      Keeps-bind user g _ _
        (Keeps-bind user g _ _ (Keeps-now user g env) λ at.
          Keeps-bind user g _ _ (Keeps-random_uuid user g env) λ id.
            Keeps-bind user g _ _ (Keeps-next user g)
              λ seq. Keeps-create user g env "recurrenceRule" _ refl)
        λ rule.
          Keeps-bind user g _ _ (Keeps-random_uuid user g env)
            λ series. Keeps-create_with g fields _ _ _

  Keeps-finish :
      (g : List (String × String)) (id : String) (task : Row) (at : ℕ)
      → Occurs ("task", id) g
      → Keeps user g (finish env zone user id task at)
  unfolding finish
  Keeps-finish g id task at own = Keeps-bind user g _ _ (Keeps-allocate user g 2) λ base.
      Keeps-bind user g _ _
        (Keeps-transaction user g _ (
          Keeps-bind user g _ _
            (Keeps-update user g env "task" id _ own (KeepsOwner-has user _ refl) refl)
            λ done. Keeps-bind user g _ _ (Keeps-random_uuid user g env) λ a.
              Keeps-bind user g _ _ (Keeps-create user g env "activityEntry" _ refl)
                λ made. Keeps-pure user g done))
        λ updated.
          Keeps-bind user g _ _ (Keeps-spawn_next_occurrence g task (date at))
            λ o. Keeps-pure user g (updated, o)

  Keeps-complete :
      (g : List (String × String)) (id : String) (at : Option ℕ)
      → Keeps user g (complete env zone user id at)
  unfolding complete
  Keeps-complete g id at = Keeps-find_one user g env "task" id false _ λ task found.
      Keeps-if user _ _ _ _ (Keeps-pure user _ (task, none))
        (Keeps-bind user _ _ _ (time at) λ when. Keeps-finish _ id task when (inl refl))
    where
      time : (at : Option ℕ) → Keeps user (("task", id) ∷ g) (completion_time env zone user at)
      time none = Keeps-now user _ env
      time (some t) = Keeps-pure user _ t

  Keeps-touch_all :
      (g : List (String × String)) (model : String) (columns : Row) (rs : List Row) (seq : ℕ)
      → ((r : Row) → Occurs r rs → Occurs (model, id_of r) g)
      → ((n : ℕ) → KeepsOwner user (("seq", big n) ∷ columns))
      → ((id : String) (n : ℕ) → keeps_links model id (("seq", big n) ∷ columns) ≡ true)
      → Keeps user g (touch_all env zone user model columns rs seq)
  unfolding touch_all
  Keeps-touch_all g model columns [] seq own keep links = Keeps-pure user g seq
  Keeps-touch_all g model columns (r ∷ rs) seq own keep links =
      Keeps-bind user g _ _
        (Keeps-update user g env model (id_of r) _ (own r (inl refl)) (keep (seq + 1))
          (links (id_of r) (seq + 1)))
        λ made. Keeps-touch_all g model columns rs (seq + 1) (λ q o. own q (inr o)) keep links

  parts-AsksOwn : (id : String) → AsksOwn env.prisma.like user (parts_of user id)
  unfolding matches
  parts-AsksOwn id r h = text_of_value_eq (get "userId" r) user (ground arith)

  Keeps-remove_task :
      (g : List (String × String)) (id : String) → Keeps user g (remove_task env zone user id)
  unfolding remove_task
  Keeps-remove_task g id = Keeps-find_one user g env "task" id false _ λ task found.
      Keeps-find_many_own user _ env "checklistItem" _ any_order _ (parts-AsksOwn id) λ children.
        Keeps-find_many_own user _ env "activityEntry" _ any_order _ (parts-AsksOwn id)
          λ activities. Keeps-bind user _ _ _ (Keeps-now user _ env) λ at.
            Keeps-bind user _ _ _ (Keeps-allocate user _ _) λ base. Keeps-transaction user _ _ (
              Keeps-bind user _ _ _
                (Keeps-touch_all _ "checklistItem" _ children base
                  (λ r o.
                    Occurs-append_right ("checklistItem", id_of r) (ids "activityEntry" activities)
                      _
                      (Occurs-append_left ("checklistItem", id_of r) (ids "checklistItem" children)
                        _ (Occurs-ids "checklistItem" r children o)))
                  (λ n. KeepsOwner-has user _ refl) (λ j n. refl))
                λ after.
                  Keeps-bind user _ _ _
                    (Keeps-touch_all _ "activityEntry" _ activities after
                      (λ r o.
                        Occurs-append_left ("activityEntry", id_of r)
                          (ids "activityEntry" activities) _
                          (Occurs-ids "activityEntry" r activities o))
                      (λ n. KeepsOwner-has user _ refl) (λ j n. refl))
                    λ last.
                      Keeps-update user _ env "task" id _
                        (Occurs-append_right ("task", id) (ids "activityEntry" activities) _
                          (Occurs-append_right ("task", id) (ids "checklistItem" children) _
                            (inl refl)))
                        (KeepsOwner-has user _ refl) refl)

  Keeps-reopen : (g : List (String × String)) (id : String) → Keeps user g (reopen env zone user id)
  unfolding reopen
  Keeps-reopen g id =
      Keeps-find_one user g env "task" id false _
        λ task found. Keeps-crud_update env user _ "task" id _ refl refl

  Keeps-drop_task :
      (g : List (String × String)) (id : String) → Keeps user g (drop_task env zone user id)
  unfolding drop_task
  Keeps-drop_task g id = Keeps-find_one user g env "task" id false _ λ task found.
      Keeps-bind user _ _ _ (Keeps-now user _ env)
        λ at. Keeps-crud_update env user _ "task" id _ refl refl

  Keeps-carry_forward :
      (g : List (String × String)) (id : String) → Keeps user g (carry_forward env zone user id)
  unfolding carry_forward
  Keeps-carry_forward g id = Keeps-find_one user g env "task" id false _ λ task found.
      Keeps-bind user _ _ _ (Keeps-now user _ env) λ at.
        Keeps-crud_update env user _ "task" id _
          (count_has_no_user at (plus_one (get "carryForwardCount" task)))
          (count_has_no_id id at (plus_one (get "carryForwardCount" task)))
    where
      count_has_no_user :
          (at : ℕ) (v : Value)
          → has "userId" (defined (("carriedForwardAt", date at) ∷ ("carryForwardCount", v) ∷ []))
            ≡ false
      count_has_no_user at v = ground arith

      count_has_no_id :
          (id : String) (at : ℕ) (v : Value)
          → keeps_links "task" id (("carriedForwardAt", date at) ∷ ("carryForwardCount", v) ∷ [])
            ≡ true
      count_has_no_id id at v = elim (Bool-cases (is_undefined v)) [
        | inl e ↦ rw e refl
        | inr e ↦ rw e refl
      ]

  pub Keeps-create_task :
      (g : List (String × String)) (fields : Row) (recurrence : Option Row)
      → Keeps user g (create_task env zone user fields recurrence)
  unfolding create_task
  Keeps-create_task g fields recurrence =
      Keeps-bind user g _ _ (Keeps-assert_parents g fields) λ u. Keeps-create_by g fields recurrence

  Keeps-update_task :
      (g : List (String × String)) (id : String) (fields : Row)
      → has "userId" (defined (spread fields (patched env zone user fields))) ≡ false
      → KeepsId id fields
      → Keeps user g (update_task env zone user id fields)
  unfolding update_task
  Keeps-update_task g id fields h same = Keeps-bind user g _ _ (Keeps-assert_parents g fields) λ u.
      Keeps-crud_update env user g "task" id _ h
        (keeps_links-append "task" id (patched env zone user fields) fields (ground arith) same)

-- Whatever a caller does to tasks - to create one, also one that recurs, to patch one with columns
-- that name neither `userId` nor another id than the task's, to complete, reopen, drop, defer or remove one - leaves the rows and
-- the sequence counter of every other user as they are, also when the operation throws.
pub tasks-Isolated :
    (env : Env) (zone : Zone) (user id : String) (fields : Row) (recurrence : Option Row)
    (at : Option ℕ) (s : World)
    → has "userId" (defined (spread fields (patched env zone user fields))) ≡ false
    → KeepsId id fields
    → Isolated user s.db (create_task env zone user fields recurrence s).1.db
      × Isolated user s.db (update_task env zone user id fields s).1.db
      × Isolated user s.db (complete env zone user id at s).1.db
      × Isolated user s.db (reopen env zone user id s).1.db
      × Isolated user s.db (drop_task env zone user id s).1.db
      × Isolated user s.db (carry_forward env zone user id s).1.db
      × Isolated user s.db (remove_task env zone user id s).1.db
tasks-Isolated env zone user id fields recurrence at s h same = (
  (Keeps-create_task env zone user [] fields recurrence).at s tt,
  (Keeps-update_task env zone user [] id fields h same).at s tt,
  (Keeps-complete env zone user [] id at).at s tt,
  (Keeps-reopen env zone user [] id).at s tt,
  (Keeps-drop_task env zone user [] id).at s tt,
  (Keeps-carry_forward env zone user [] id).at s tt,
  (Keeps-remove_task env zone user [] id).at s tt,
)

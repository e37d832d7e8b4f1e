-- ===== src/Crud/Scoped.antt =====
-- The operations of ScopedCrudService touch only what is their caller's.
use planner_api.Common.{String, ◌≡◌, refl, true, false, List, [], arith, inl, Option, none, some}
use planner_api.Store.Value.{Value, undefined, null, str, Row, get, has, truthy}
use planner_api.Store.Db.{defined, keeps_links}
use planner_api.Store.Links.{is_referenced}
use planner_api.Store.Effects.{keeps_links-leaf}
use planner_api.Store.Action.{World, pure, Env, now, random_uuid}
use planner_api.Crud
use planner_api.Crud.{id_or_uuid, assert_owned, assert_owned_or_null, refuse_none}
use planner_api.Crud.Isolation.{Isolated, KeepsOwner-has}
use planner_api.Crud.Keeps.{
  keeps_rules, Keeps, Keeps-pure, Keeps-bind, Keeps-now, Keeps-next, Keeps-random_uuid,
  Keeps-create, Keeps-update, Keeps-find_one, Keeps-find_first, Keeps-throw, Keeps-if,
}

module _ (env : Env) (user : String) (g : List (String × String)) where
  pub Keeps-id_or_uuid : (v : Value) → Keeps user g (id_or_uuid env v)
  Keeps-id_or_uuid undefined =
      Keeps-bind user g (random_uuid env) (λ u. pure (str u)) (Keeps-random_uuid user g env)
        (λ u. Keeps-pure user g (str u))
  Keeps-id_or_uuid null =
      Keeps-bind user g (random_uuid env) (λ u. pure (str u)) (Keeps-random_uuid user g env)
        (λ u. Keeps-pure user g (str u))
  Keeps-id_or_uuid v = Keeps-pure user g v

  pub Keeps-crud_create :
      (m : String) (columns : Row) → Keeps user g (Crud.create env m user columns)
  unfolding Crud.create
  Keeps-crud_create m columns = Keeps-bind user g (now env) _ (Keeps-now user g env) λ t.
      Keeps-bind user g (Crud.next user) _ (Keeps-next user g) λ seq.
        Keeps-bind user g (id_or_uuid env (get "id" columns)) _
          (Keeps-id_or_uuid (get "id" columns)) λ id. Keeps-create user g env m _ (ground arith)

  pub Keeps-crud_update :
      (m id : String) (columns : Row)
      → has "userId" (defined columns) ≡ false
      → keeps_links m id columns ≡ true
      → Keeps user g (Crud.update env m user id columns)
  unfolding Crud.update
  Keeps-crud_update m id columns h same = Keeps-find_one user g env m id false _ λ r found.
      Keeps-bind user _ (Crud.next user) _ (Keeps-next user _) λ seq.
        Keeps-bind user _ (now env) _ (Keeps-now user _ env)
          λ t. Keeps-update user _ env m id _ (inl refl) (KeepsOwner-has user _ h) same

  pub Keeps-crud_update_leaf :
      (m id : String) (columns : Row)
      → has "userId" (defined columns) ≡ false
      → is_referenced m ≡ false
      → Keeps user g (Crud.update env m user id columns)
  Keeps-crud_update_leaf m id columns h leaf =
      Keeps-crud_update m id columns h (keeps_links-leaf m id columns leaf)

  pub Keeps-crud_remove : (m id : String) → Keeps user g (Crud.remove env m user id)
  unfolding Crud.remove
  Keeps-crud_remove m id = search (keeps_rules, inl) depth 9

  pub Keeps-crud_restore : (m id : String) → Keeps user g (Crud.restore env m user id)
  unfolding Crud.restore
  Keeps-crud_restore m id = search (keeps_rules, inl) depth 9

  pub Keeps-assert_owned_or_null :
      (m : String) (id : Value) → Keeps user g (assert_owned_or_null env user m id)
  unfolding assert_owned_or_null assert_owned
  Keeps-assert_owned_or_null m id =
      Keeps-if user g (truthy id) _ _
        (Keeps-bind user g _ _ (Keeps-find_first user g env m _) λ o. refuse o)
        (Keeps-pure user g tt)
    where
      refuse : (o : Option Row) → Keeps user g (refuse_none env o m)
      refuse none = Keeps-throw user g _
      refuse (some r) = Keeps-pure user g tt

-- Whatever a caller creates, updates, removes or restores, with new column values that do not name
-- `userId`, nor another id where other tables refer to the row's, the rows and the sequence counter of every other user stay as they are, also when the
-- operation throws.
pub crud-Isolated :
    (env : Env) (m user id : String) (columns : Row) (s : World)
    → has "userId" (defined columns) ≡ false
    → keeps_links m id columns ≡ true
    → Isolated user s.db (Crud.create env m user columns s).1.db
      × Isolated user s.db (Crud.update env m user id columns s).1.db
      × Isolated user s.db (Crud.remove env m user id s).1.db
      × Isolated user s.db (Crud.restore env m user id s).1.db
crud-Isolated env m user id columns s h same = (
  (Keeps-crud_create env user [] m columns).at s tt,
  (Keeps-crud_update env user [] m id columns h same).at s tt,
  (Keeps-crud_remove env user [] m id).at s tt,
  (Keeps-crud_restore env user [] m id).at s tt,
)

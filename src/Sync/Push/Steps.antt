-- ===== src/Sync/Push/Steps.antt =====
-- A push writes only rows of its caller, whatever the batch names.
use planner_api.Common.{
  ℕ, String, ◌≡◌, refl, Bool, true, false, Option, none, some, List, [], ◌∷◌, ◌==◌, eq_iff, arith,
  length, Bool-cases, Option-cases, inl, inr, All,
}
use planner_api.Store.Value.{str, Row, get, has, owner, id_of, instant}
use planner_api.Store.Query.{equals, matches}
use planner_api.Store.Db.{Exception, ok, Db, stored, defined}
use planner_api.Store.Action.{Action, World, pure, throw, transaction, ◌>>=◌, ◌>>◌, Env, now, lift}
use planner_api.Store.Action
use planner_api.Crud.{allocate}
use planner_api.Crud.Rows.{text_of_value_eq}
use planner_api.Crud.Isolation.{Isolated, Isolated-refl, KeepsOwner-has}
use planner_api.Crud.Keeps.{
  Keeps, keeps_rules, Keeps-pure, Keeps-throw, Keeps-bind, Keeps-now, Keeps-if, Keeps-create,
  Keeps-update_has, Keeps-allocate, Keeps-transaction, Keeps-lift, Keeps-lift-bind,
}
use planner_api.Sync.Registry.{TableSchema, get_table, coerce}
use planner_api.Sync.Registry.Checks.{coerce-IsChecked, is_kept, IsChecked}
use planner_api.Sync.Push.{
  SyncOp, upsert, delete, SyncChange, SyncPush, Progress, is_stale, lift, columns_of, valid_date,
  order_changes, apply_op, apply_change, apply_all, push_batch, touch_client, upsert_client,
  write_client, push,
}

-- What `findFirst({ where: { id } })` finds is stored under that id.
pub find_by_id :
    (env : Env) (m id : String) (d : Db) (r : Row)
    → env.prisma.find_first m (("id", equals (str id)) ∷ []) d ≡ some r
    → (stored m id d ≡ some r) × (id_of r ≡ id)
unfolding matches
find_by_id env m id d r e =
    let (there, fits) = env.prisma.find_first-some m (("id", equals (str id)) ∷ []) d r e in
    let named : id_of r ≡ id = text_of_value_eq (get "id" r) id (ground arith) in
    (rw named at there, named)

module _ (env : Env) (user : String) (g : List (String × String)) where
  pub Keeps-find_by_id :
      {B : Type 0} (m id : String) (f : Option Row → Action B)
      → Keeps user g (f none)
      → ((r : Row) → (owner r == user) ≡ true → Keeps user ((m, id) ∷ g) (f (some r)))
      → ((r : Row) → (owner r == user) ≡ false → Keeps user g (f (some r)))
      → Keeps user g (Action.find_first env m (("id", equals (str id)) ∷ []) >>= f)
  unfolding ◌>>=◌ Action.find_first
  Keeps-find_by_id m id f missing own foreign = record {
    at = λ s h. elim (Option-cases (env.prisma.find_first m (("id", equals (str id)) ∷ []) s.db)) [
      | inl e ↦ rw e (missing.at s h)
      | inr (r, e) ↦ elim (Bool-cases (owner r == user)) [
        | inl o ↦ rw e (
            (own r o).at s (rw ((find_by_id env m id s.db r e).0) ((eq_iff (owner r) user).0 o), h))
        | inr o ↦ rw e ((foreign r o).at s h)
      ]
    ];
  }

  Keeps-valid_date : (o : Option ℕ) → Keeps user g (valid_date o)
  Keeps-valid_date none = Keeps-throw user g _
  Keeps-valid_date (some t) = Keeps-pure user g t

not_dropped : (name k : String) → is_kept name ≡ false → is_kept k ≡ true → (k == name) ≡ false
not_dropped name k dropped h = elim (Bool-cases (k == name)) [
  | inl e ↦ let same : is_kept name ≡ true = rw ((eq_iff k name).0 e) at h in cc
  | inr e ↦ e
]

pub names_none :
    (name : String) (t : TableSchema) (r : Row)
    → is_kept name ≡ false
    → All (λ e. IsChecked t e.0 e.1) r
    → has name (defined r) ≡ false
names_none name t [] n h = refl
names_none name t ((k, v) ∷ r) n h =
    ground (arith, names_none name t r n h.1, not_dropped name k n h.0.kept)

module _ (env : Env) (tables : List TableSchema) (user : String) (g : List (String × String)) where
  -- The columns that `coerce` returns name neither the owner nor the id.
  coerced_has :
      (name : String) (t : TableSchema) (c : SyncChange) (for_create : Bool) (columns : Row)
      → coerce env.new_date t (columns_of c) for_create ≡ ok columns
      → is_kept name ≡ false
      → has name (defined columns) ≡ false
  coerced_has name t c for_create columns e n =
      names_none name t columns n
        (coerce-IsChecked env.new_date t (columns_of c) for_create columns e).1

  Keeps-apply_none :
      (op : SyncOp) (t : TableSchema) (c : SyncChange) (p : Progress)
      → Keeps user g (apply_op env tables user op t c none p)
  unfolding apply_op
  Keeps-apply_none delete t c p = search keeps_rules
  Keeps-apply_none upsert t c p =
      Keeps-lift-bind user g (coerce env.new_date t (columns_of c) true) _ λ columns e.
        Keeps-bind user g (valid_date (env.new_date (str c.updated_at))) _
          (Keeps-valid_date env user g (env.new_date (str c.updated_at)))
          λ at.
            Keeps-bind user g _ _ (Keeps-create user g env t.definition.delegate _ refl)
              λ r. Keeps-pure user g _

  Keeps-apply_some :
      (op : SyncOp) (t : TableSchema) (c : SyncChange) (r : Row) (p : Progress)
      → Keeps user ((t.definition.delegate, c.id) ∷ g) (apply_op env tables user op t c (some r) p)
  unfolding apply_op
  Keeps-apply_some delete t c r p = search (keeps_rules, Keeps-valid_date env user, inl) depth 9
  Keeps-apply_some upsert t c r p =
      Keeps-lift-bind user _ (coerce env.new_date t (columns_of c) false) _ λ columns e.
        Keeps-bind user _ (valid_date (env.new_date (str c.updated_at))) _
          (Keeps-valid_date env user _ (env.new_date (str c.updated_at)))
          λ at.
            Keeps-bind user _ _ _
              (Keeps-update_has user _ env t.definition.delegate c.id _ (inl refl)
                (KeepsOwner-has user _ (coerced_has "userId" t c false columns e refl))
                (coerced_has "id" t c false columns e refl))
              λ r. Keeps-pure user _ _

  Keeps-apply_change :
      (c : SyncChange) (p : Progress) → Keeps user g (apply_change env tables user c p)
  unfolding apply_change
  Keeps-apply_change c p = Keeps-lift-bind user g (get_table tables c.table) _ λ t e.
      Keeps-find_by_id env user g t.definition.delegate c.id _ (Keeps-apply_none c.op t c p)
        (λ r own. rw own (
          Keeps-if user _ (is_stale (instant (get "updatedAt" r)) (env.new_date (str c.updated_at)))
            _ _ (Keeps-pure user _ _) (Keeps-apply_some c.op t c r p)))
        (λ r foreign. rw foreign (Keeps-pure user g _))

  Keeps-apply_all :
      (cs : List SyncChange) (p : Progress) → Keeps user g (apply_all env tables user cs p)
  unfolding apply_all
  Keeps-apply_all [] p = Keeps-pure user g p
  Keeps-apply_all (c ∷ cs) p =
      Keeps-bind user g (apply_change env tables user c p) _ (Keeps-apply_change c p)
        λ q. Keeps-apply_all cs q

  Keeps-push_batch : (cs : List SyncChange) → Keeps user g (push_batch env tables user cs)
  unfolding push_batch
  Keeps-push_batch cs =
      Keeps-bind user g (allocate user (length cs)) _ (Keeps-allocate user g (length cs))
        λ base. Keeps-apply_all cs _

  Keeps-touch_client :
      (device : String) (changed created : Row)
      → Keeps user g (touch_client env user device changed created)
  unfolding touch_client
  Keeps-touch_client device changed created = record {
    at = λ s h. outcome s (env.prisma.client_error user device s.db);
  }
    where
      outcome :
          (s : World) (o : Option Exception)
          → Isolated user s.db (upsert_client o s (write_client user device changed created s)).1.db
      outcome s (some e) = Isolated-refl user s.db
      outcome s none = record {
        rows_same = λ v m id n. refl;
        seq_same = λ v n. refl;
        clients_same = λ v n. ground (arith, eq_iff user v, eq_iff v user);
      }

  Keeps-push :
      (locale_le : String → String → Bool) (dto : SyncPush)
      → Keeps user g (push env tables locale_le user dto)
  unfolding push
  Keeps-push locale_le dto =
      Keeps-bind user g (lift (order_changes locale_le tables dto.changes)) _
        (Keeps-lift user g (order_changes locale_le tables dto.changes))
        λ ordered.
          Keeps-bind user g (transaction (push_batch env tables user ordered)) _
            (Keeps-transaction user g (push_batch env tables user ordered)
              (Keeps-push_batch ordered))
            λ p. Keeps-bind user g (now env) _ (Keeps-now user g env) λ t.
              Keeps-bind user g _ _ (Keeps-touch_client dto.device_id _ _) λ u. Keeps-pure user g _

-- Whatever a push holds, and however it ends, the rows, the sequence counter and the devices of
-- every other user stay as they are.
pub push-Isolated :
    (env : Env) (tables : List TableSchema) (locale_le : String → String → Bool) (user : String)
    (dto : SyncPush) (s : World)
    → Isolated user s.db (push env tables locale_le user dto s).1.db
push-Isolated env tables locale_le user dto s =
    (Keeps-push env tables user [] locale_le dto).at s tt

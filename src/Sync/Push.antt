-- ===== src/Sync/Push.antt =====
-- modules/sync/sync.service.ts: `push` and what it calls.
pub mod Steps
pub mod Batch
pub mod Replay
use planner_api.Common.{
  ℕ, zero, suc, ◌+◌, ◌-◌, String, ◌≡◌, Bool, true, false, not, ◌&&◌, ◌||◌, Option, none, some, List,
  [], ◌∷◌, ◌++◌, ◌==◌, leb, ltb, eqb, length, if◌then◌else◌,
}
use planner_api.Store.Value.{
  Value, undefined, null, bool, int, float, big, str, date, Row, get, spread, owner, instant,
}
use planner_api.Store.Query.{Where, equals}
use planner_api.Store.Db.{Exception, Result, ok, err, failure, lookup, put_entry, defined}
use planner_api.Store.Action.{Action, World, pure, throw, transaction, ◌>>=◌, ◌>>◌, Env, now, lift}
use planner_api.Store.Action
use planner_api.Crud.{allocate}
use planner_api.Sync.Registry.{TableSchema, get_table, coerce}

pub data SyncOp : Type 0 where
  upsert delete : SyncOp

-- `SyncChangeDto`; without `data` there are no columns.
pub record SyncChange : Type 0 where
  pub table : String
  pub id : String
  pub op : SyncOp
  pub updated_at : String
  pub columns : Option Row

pub data Reason : Type 0 where
  stale not_owned : Reason

pub record SyncConflict : Type 0 where
  pub table : String
  pub id : String
  pub reason : Reason
  pub server_updated_at : Option ℕ

pub record SyncPush : Type 0 where
  pub device_id : String
  pub platform : Value
  pub app_version : Value
  pub changes : List SyncChange

pub record SyncPushResult : Type 0 where
  pub applied : ℕ
  pub skipped : ℕ
  pub conflicts : List SyncConflict
  pub cursor : ℕ

-- The variables of the loop: `seq`, `applied` and `conflicts`.
pub record Progress : Type 0 where
  pub seq : ℕ
  pub applied : ℕ
  pub conflicts : List SyncConflict

abbrev pub refused : SyncChange → Reason → Option ℕ → Progress → Progress
refused c reason at p = record p {
  conflicts =
      p.conflicts
      ++ record { table = c.table; id = c.id; reason = reason; server_updated_at = at } ∷ [];
}

-- `existing.updatedAt >= incomingUpdatedAt`: an invalid date is never the smaller.
abbrev pub is_stale : ℕ → Option ℕ → Bool
is_stale server none = false
is_stale server (some t) = leb t server

abbrev pub columns_of : SyncChange → Row
columns_of c = elim c.columns [ none ↦ [] | some r ↦ r ]

-- `updatedAt: incomingUpdatedAt`; Prisma refuses to write an invalid date.
abbrev pub valid_date : Option ℕ → Action ℕ
valid_date none = throw (failure "PrismaClientValidationError")
valid_date (some t) = pure t

-- A batch is sorted by the order of its tables, then by the texts of `updatedAt`.
module _ (locale_le : String → String → Bool) where
  abbrev pub comes_first : ℕ × SyncChange → ℕ × SyncChange → Bool
  comes_first (m, a) (n, b) = if eqb m n then locale_le a.updated_at b.updated_at else ltb m n

  -- One step of a stable sort: `a` goes in front of the first item that it may precede.
  unfoldable pub insert_change : ℕ × SyncChange → List (ℕ × SyncChange) → List (ℕ × SyncChange)
  insert_change a [] = a ∷ []
  insert_change a (b ∷ l) =
      let rest = insert_change a l in if comes_first a b then a ∷ b ∷ l else b ∷ rest

  abbrev pub insert_result :
      SyncChange
      → Result TableSchema
      → Result (List (ℕ × SyncChange))
      → Result (List (ℕ × SyncChange))
  insert_result c (err e) rest = err e
  insert_result c (ok t) (err e) = err e
  insert_result c (ok t) (ok l) = ok (insert_change (t.definition.order, c) l)

  unfoldable pub sort_changes : List TableSchema → List SyncChange → Result (List (ℕ × SyncChange))
  unfolding insert_change
  sort_changes tables [] = ok []
  sort_changes tables (c ∷ cs) = insert_result c (get_table tables c.table) (sort_changes tables cs)

  abbrev pub drop_orders : List (ℕ × SyncChange) → List SyncChange
  drop_orders [] = []
  drop_orders ((n, c) ∷ l) = c ∷ drop_orders l

  abbrev pub drop_result : Result (List (ℕ × SyncChange)) → Result (List SyncChange)
  drop_result (err e) = err e
  drop_result (ok l) = ok (drop_orders l)

  -- `orderChanges`. The comparison looks the tables up, so a single change is not looked up here.
  unfoldable pub order_changes : List TableSchema → List SyncChange → Result (List SyncChange)
  unfolding sort_changes
  order_changes tables [] = ok []
  order_changes tables (c ∷ []) = ok (c ∷ [])
  order_changes tables cs = drop_result (sort_changes tables cs)

module _ (env : Env) (tables : List TableSchema) (user : String) where
  abbrev counted : Progress → ℕ → Action Progress
  counted p seq = pure (record p { seq = seq; applied = p.applied + 1 })

  -- From `seq += 1n` on, for a change that is neither foreign nor stale.
  unfoldable pub apply_delete : TableSchema → SyncChange → Option Row → Progress → Action Progress
  apply_delete t c none p = pure (record p { seq = p.seq + 1 })
  apply_delete t c (some existing) p = do
    deleted ← now env
    at ← valid_date (env.new_date (str c.updated_at))
    Action.update env t.definition.delegate c.id
        (("deletedAt", date deleted) ∷ ("updatedAt", date at) ∷ ("seq", big (p.seq + 1)) ∷ [])
    counted p (p.seq + 1)

  unfoldable pub apply_upsert : TableSchema → SyncChange → Option Row → Progress → Action Progress
  apply_upsert t c none p = do
    columns ← lift (coerce env.new_date t (columns_of c) true)
    at ← valid_date (env.new_date (str c.updated_at))
    Action.create env t.definition.delegate (
        spread columns (
          ("id", str c.id)
          ∷ ("userId", str user)
          ∷ ("updatedAt", date at)
          ∷ ("seq", big (p.seq + 1))
          ∷ []))
    counted p (p.seq + 1)
  apply_upsert t c (some existing) p = do
    columns ← lift (coerce env.new_date t (columns_of c) false)
    at ← valid_date (env.new_date (str c.updated_at))
    Action.update env t.definition.delegate c.id (
        spread columns
          (("deletedAt", null) ∷ ("updatedAt", date at) ∷ ("seq", big (p.seq + 1)) ∷ []))
    counted p (p.seq + 1)

  unfoldable pub apply_op :
      SyncOp → TableSchema → SyncChange → Option Row → Progress → Action Progress
  unfolding apply_delete apply_upsert
  apply_op delete = apply_delete
  apply_op upsert = apply_upsert

  -- The guards on a row that is there already.
  unfoldable pub decide : TableSchema → SyncChange → Option Row → Progress → Action Progress
  unfolding apply_op
  decide t c none p = apply_op c.op t c none p
  decide t c (some r) p =
      if not (owner r == user)
      then pure (refused c not_owned none p)
      else if is_stale (instant (get "updatedAt" r)) (env.new_date (str c.updated_at))
      then pure (refused c stale (some (instant (get "updatedAt" r))) p)
      else apply_op c.op t c (some r) p

  -- The body of the loop.
  unfoldable pub apply_change : SyncChange → Progress → Action Progress
  unfolding decide
  apply_change c p = do
    t ← lift (get_table tables c.table)
    existing ← Action.find_first env t.definition.delegate (("id", equals (str c.id)) ∷ [])
    decide t c existing p

  unfoldable pub apply_all : List SyncChange → Progress → Action Progress
  unfolding apply_change
  apply_all [] p = pure p
  apply_all (c ∷ cs) p = do p' ← apply_change c p; apply_all cs p'

  -- The callback of `$transaction`.
  unfoldable pub push_batch : List SyncChange → Action Progress
  unfolding apply_all
  push_batch ordered = do
    base ← allocate user (length ordered)
    apply_all ordered (record { seq = base; applied = 0; conflicts = [] })

abbrev pub upserted : Row → Row → Option Row → Row
upserted changed created none = created
upserted changed created (some r) = spread r (defined changed)

-- `syncClient.upsert`
abbrev pub write_client : String → String → Row → Row → World → World
write_client user device changed created s =
    let row = upserted changed created (lookup device (s.db.clients user)) in
    record s {
      db = record s.db {
        clients = λ u. if user == u then put_entry device row (s.db.clients u) else s.db.clients u;
      };
    }

abbrev pub upsert_client : Option Exception → World → World → Result (Unit {0}) × World
upsert_client (some e) s t = (err e, s)
upsert_client none s t = (ok tt, t)

-- The best-effort upsert of the device's row: `try { … } catch { warn }`.
unfoldable pub touch_client : Env → String → String → Row → Row → Action (Unit {0})
touch_client env user device changed created s = (
  ok tt,
  (upsert_client (env.prisma.client_error user device s.db) s
      (write_client user device changed created s)).1,
)

-- `typeof value === 'string' ? value : null`
abbrev pub text_or_null : Value → Value
text_or_null (str s) = str s
text_or_null v = null

unfoldable pub push :
    Env → List TableSchema → (String → String → Bool) → String → SyncPush → Action SyncPushResult
unfolding order_changes
push env tables locale_le user dto = do
  ordered ← lift (order_changes locale_le tables dto.changes)
  p ← transaction (push_batch env tables user ordered)
  t ← now env
  touch_client env user dto.device_id
      (("platform", dto.platform) ∷ ("appVersion", dto.app_version) ∷ ("lastPushedAt", date t) ∷ [])
      (("userId", str user)
        ∷ ("deviceId", str dto.device_id)
        ∷ ("platform", text_or_null dto.platform)
        ∷ ("appVersion", text_or_null dto.app_version)
        ∷ ("lastPulledSeq", big 0)
        ∷ ("lastPulledAt", null)
        ∷ ("lastPushedAt", date t)
        ∷ [])
  pure (record {
    applied = p.applied;
    skipped = length ordered - p.applied;
    conflicts = p.conflicts;
    cursor = p.seq;
  })

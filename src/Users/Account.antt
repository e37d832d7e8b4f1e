-- ===== src/Users/Account.antt =====
-- modules/users/users.service.ts: the end of an account, and the merge of a guest's into another.
pub mod Adoption
pub mod Brought
pub mod Clearing
pub mod Deletion
pub mod Erasure
pub mod Merge
pub mod Moving
pub mod Tables
use planner_api.Common.{
  ℕ, ◌+◌, ◌-◌, ◌*◌, String, Bool, true, false, not, Option, none, some, List, [], ◌∷◌, ◌++◌, map,
  ◌==◌, leb, length, if◌then◌else◌,
}
use planner_api.Store.Value.{Value, bool, big, str, Row, get, id_of, text, truthy}
use planner_api.Store.Query.{Where, equals, not_null, is_null, lt, lt_or_null}
use planner_api.Store.Db.{
  Exception, failure, known_request, bad_request, unauthorized, Result, ok, err, Db, Order, stored,
  remove,
}
use planner_api.Store.Action.{
  Action, World, pure, throw, throw_if, transaction, ◌>>=◌, ◌>>◌, Env, now,
}
use planner_api.Store.Action
use planner_api.Crud.{allocate}
use planner_api.Storage.{ObjectStore, calls_so_far}
use planner_api.Storage
use planner_api.Sync.Registry.{SyncTableDef, sync_tables}
use planner_api.Sync.Pull.{by_seq}
use planner_api.Tasks.{any_order}
use planner_api.Users.{AuthenticatedUser, by_uid, find_by_id, forget}
use planner_api.Users.Guard.{Firebase, DecodedIdToken, is_anonymous, delete_firebase_user}

-- `sort((a, b) => b.order - a.order)`, which is stable.
abbrev pub insert_descending : SyncTableDef → List SyncTableDef → List SyncTableDef
insert_descending a [] = a ∷ []
insert_descending a (b ∷ l) =
    let rest = insert_descending a l in if leb b.order a.order then a ∷ b ∷ l else b ∷ rest

abbrev pub sort_descending : List SyncTableDef → List SyncTableDef
sort_descending [] = []
sort_descending (a ∷ l) = insert_descending a (sort_descending l)

-- OWNED_DELEGATES
unfoldable pub owned_delegates : List String
owned_delegates = map (λ t. t.delegate) (sort_descending sync_tables)

abbrev pub owned_by : String → Where
owned_by user = ("userId", equals (str user)) ∷ []

abbrev pub object_keys : List Row → List String
object_keys [] = []
object_keys (r ∷ rs) =
    let rest = object_keys rs in
    if truthy (get "objectKey" r) then text (get "objectKey" r) ∷ rest else rest

-- `try { … } catch { warn }`
unfoldable pub attempt : Action (Unit {0}) → Action (Unit {0})
unfolding pure
attempt m s = pure tt (m s).1

-- `tx.syncClient.deleteMany`
unfoldable pub delete_clients : String → Action (Unit {0})
delete_clients user s =
    (pure tt)
      (record s { db = record s.db { clients = λ u. if user == u then [] else s.db.clients u } })

-- `tx.syncState.deleteMany`
unfoldable pub delete_sync_state : String → Action (Unit {0})
delete_sync_state user s =
    (pure tt) (record s {
      db = record s.db { last_seq = λ u. if user == u then none else s.db.last_seq u };
    })

abbrev pub delete_found : Option Row → String → Action (Unit {0})
delete_found none user s = throw (known_request "P2025") s
delete_found (some r) user s = (pure tt) (record s { db = remove "user" (λ k _. k == user) s.db })

-- `tx.user.delete`: by now no row refers to the user any more.
unfoldable pub delete_user_row : String → Action (Unit {0})
delete_user_row user s = delete_found (stored "user" user s.db) user s

module _ (env : Env) where
  unfoldable pub delete_owned : String → List String → Action ℕ
  delete_owned user [] = pure 0
  delete_owned user (m ∷ ms) = do
    count ← Action.delete_many env m (owned_by user)
    rest ← delete_owned user ms
    pure (count + rest)

  -- The transaction of `eraseUser`.
  unfoldable pub erase_rows : String → Action ℕ
  unfolding owned_delegates delete_owned delete_clients delete_sync_state delete_user_row
  erase_rows user = do
    count ← delete_owned user owned_delegates
    delete_clients user
    delete_sync_state user
    delete_user_row user
    pure count

  unfoldable pub owned_object_keys : String → Action (List String)
  owned_object_keys user = do
    let held = ("userId", equals (str user)) ∷ ("objectKey", not_null) ∷ []
    attachments ← Action.find_many env "attachment" held any_order
    voice_notes ← Action.find_many env "voiceNote" held any_order
    pure (object_keys (attachments ++ voice_notes))

module _ (objects : ObjectStore) where
  unfoldable pub discard_objects : List String → Action (Unit {0})
  unfolding attempt
  discard_objects [] = pure tt
  discard_objects (key ∷ keys) = do attempt (Storage.delete objects key); discard_objects keys

module _ (env : Env) (objects : ObjectStore) where
  unfoldable pub erase_user : String → Action ℕ
  unfolding owned_object_keys erase_rows discard_objects
  erase_user user = do
    keys ← owned_object_keys env user
    deleted ← transaction (erase_rows env user)
    discard_objects objects keys
    pure deleted

module _ (env : Env) (objects : ObjectStore) (firebase : Firebase) where
  unfoldable pub delete_account : String → Action ℕ
  unfolding erase_user
  delete_account user_id = do
    user ← find_by_id env user_id
    delete_firebase_user firebase (text (get "firebaseUid" user))
    forget (text (get "firebaseUid" user))
    erase_user env objects user_id

module _ (env : Env) where
  -- The rows take the numbers after `seq`.
  unfoldable pub move_rows : String → String → ℕ → List Row → Action (Unit {0})
  move_rows model target seq [] = pure tt
  move_rows model target seq (r ∷ rs) = do
    Action.update env model (id_of r) (("userId", str target) ∷ ("seq", big (seq + 1)) ∷ [])
    move_rows model target (seq + 1) rs

  abbrev pub move_found : String → String → List Row → Action ℕ
  move_found model target [] = pure 0
  move_found model target (r ∷ rs) = do
    seq ← allocate target (length (r ∷ rs))
    move_rows model target seq (r ∷ rs)
    pure (length (r ∷ rs))

  unfoldable pub move_table : String → String → String → Action ℕ
  unfolding move_rows
  move_table source target model = do
    rows ←
        Action.find_many env model (("userId", equals (str source)) ∷ ("deletedAt", is_null) ∷ [])
          by_seq
    move_found model target rows

  unfoldable pub move_tables : String → String → List SyncTableDef → Action ℕ
  unfolding move_table
  move_tables source target [] = pure 0
  move_tables source target (t ∷ ts) = do
    count ← move_table source target t.delegate
    rest ← move_tables source target ts
    pure (count + rest)

module _ (env : Env) (objects : ObjectStore) where
  unfoldable pub adopt_source : String → Option Row → Action ℕ
  unfolding move_tables erase_user
  adopt_source target none = pure 0
  adopt_source target (some source) = do
    adopted ← transaction (move_tables env (id_of source) target sync_tables)
    erase_user env objects (id_of source)
    pure adopted

module _ (env : Env) (objects : ObjectStore) (firebase : Firebase) where
  unfoldable pub adopt_verified : AuthenticatedUser → Option DecodedIdToken → Action ℕ
  unfolding adopt_source attempt
  adopt_verified target none = throw (unauthorized "Guest token is invalid or expired")
  adopt_verified target (some claims) = do
    throw_if (not (is_anonymous claims)) (bad_request "Only a guest session can be adopted")
    throw_if (claims.uid == target.firebase_uid) (bad_request "That guest session is this account")
    source ← Action.find_first env "user" (by_uid claims.uid)
    adopted ← adopt_source env objects target.id source
    attempt (delete_firebase_user firebase claims.uid)
    forget claims.uid
    pure adopted

  unfoldable pub adopt_anonymous : AuthenticatedUser → String → Action ℕ
  unfolding adopt_verified
  adopt_anonymous target source_token = do
    throw_if target.is_anonymous (bad_request "Sign in to a real account first")
    calls ← calls_so_far
    adopt_verified target (firebase.verify_id_token calls source_token)

abbrev pub rethrow_unless_gone : Result (Unit {0}) × World → Result (Unit {0}) × World
rethrow_unless_gone (ok u, s) = (ok u, s)
rethrow_unless_gone (err (failure code), s) =
    if code == "auth/user-not-found" then (ok tt, s) else (err (failure code), s)
rethrow_unless_gone (err e, s) = (err e, s)

unfoldable pub ensure_gone : Firebase → String → Action (Unit {0})
ensure_gone firebase uid s = rethrow_unless_gone (delete_firebase_user firebase uid s)

module _ (env : Env) (objects : ObjectStore) (firebase : Firebase) where
  unfoldable pub sweep_each : List Row → Action ℕ
  unfolding erase_user ensure_gone
  sweep_each [] = pure 0
  sweep_each (user ∷ users) = do
    ensure_gone firebase (text (get "firebaseUid" user))
    forget (text (get "firebaseUid" user))
    count ← erase_user env objects (id_of user)
    rest ← sweep_each users
    pure (count + rest)

  -- The users swept and the rows deleted. No `Date` of the database is before 1970, so that a
  -- negative cutoff selects what 0 does.
  unfoldable pub sweep_anonymous : ℕ → Action (ℕ × ℕ)
  unfolding sweep_each
  sweep_anonymous older_than_days = do
    t ← now env
    let cutoff = t - older_than_days * 24 * 60 * 60 * 1000
    stale ←
        Action.find_many env "user"
          (("anonymous", equals (bool true))
            ∷ ("lastSeenAt", lt_or_null cutoff)
            ∷ ("createdAt", lt cutoff)
            ∷ [])
          any_order
    deleted ← sweep_each stale
    pure (length stale, deleted)

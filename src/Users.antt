-- ===== src/Users.antt =====
-- modules/users/users.service.ts: the principal of a request, and the cache of principals.
pub mod Account
pub mod Guard
pub mod Identity
pub mod Principals
pub mod Resolving
use planner_api.Common.{
  ℕ, ◌+◌, ◌-◌, String, Bool, true, false, not, ◌&&◌, Option, none, some, List, [], ◌∷◌, ◌==◌, ltb,
  leb, length, drop, if◌then◌else◌,
}
use planner_api.Store.Value.{Value, null, bool, str, date, Row, get, id_of, is_nullish, text}
use planner_api.Store.Query.{Where, equals}
use planner_api.Store.Db.{not_found, lookup, put_entry, without, Db}
use planner_api.Store.Action.{
  Action, World, CachedPrincipal, Call, pure, throw, ◌>>=◌, ◌>>◌, Env, now, random_uuid,
}
use planner_api.Store.Action

pub record VerifiedClaims : Type 0 where
  pub uid : String
  pub email : Option String
  pub name : Option String
  pub picture : Option String
  pub anonymous : Bool

pub record AuthenticatedUser : Type 0 where
  pub id : String
  pub firebase_uid : String
  pub email : Value
  pub is_anonymous : Bool

abbrev pub principal_cache_ttl_ms : ℕ
principal_cache_ttl_ms = 300000

abbrev pub principal_cache_max : ℕ
principal_cache_max = 1000

-- `value ?? null`
abbrev pub or_null : Option String → Value
or_null none = null
or_null (some s) = str s

abbrev pub same_bool : Bool → Bool → Bool
same_bool true b = b
same_bool false b = not b

-- The cache entry still stands for the claims.
abbrev pub is_current : ℕ → VerifiedClaims → CachedPrincipal → Bool
is_current at claims c =
    ltb (at - c.cached_at) principal_cache_ttl_ms && same_bool c.anonymous claims.anonymous

abbrev pub bool_of : Value → Bool
bool_of (bool b) = b
bool_of v = false

-- The first entry of the map goes when it is full.
abbrev pub evicted : List (String × CachedPrincipal) → List (String × CachedPrincipal)
evicted l = if leb principal_cache_max (length l) then drop 1 l else l

abbrev pub cached_of : Row → ℕ → CachedPrincipal
cached_of user at = record {
  id = id_of user;
  firebase_uid = text (get "firebaseUid" user);
  email = get "email" user;
  anonymous = bool_of (get "anonymous" user);
  cached_at = at;
}

abbrev pub by_uid : String → Where
by_uid uid = ("firebaseUid", equals (str uid)) ∷ []

module _ (env : Env) where
  -- cachePrincipal
  unfoldable pub cache_principal : Row → Action (Unit {0})
  cache_principal user = do
    at ← now env
    λ s. (pure tt) (record s {
      principals =
          put_entry (text (get "firebaseUid" user)) (cached_of user at) (evicted s.principals);
    })

  -- The columns that an upsert refreshes.
  abbrev pub profile_of : VerifiedClaims → ℕ → Row
  profile_of claims at =
      ("email", or_null claims.email)
      ∷ ("displayName", or_null claims.name)
      ∷ ("photoUrl", or_null claims.picture)
      ∷ ("anonymous", bool claims.anonymous)
      ∷ ("lastSeenAt", date at)
      ∷ []

  -- `syncState: { create: {} }`
  abbrev pub create_sync_state : String → Action (Unit {0})
  create_sync_state user s = (pure tt) (record s {
    db = record s.db { last_seq = λ u. if user == u then some 0 else s.db.last_seq u };
  })

  -- The schema gives a new user its id by `uuid()`. Both `new Date()`s run, whichever is used.
  unfoldable pub upsert_found : VerifiedClaims → ℕ → ℕ → Option Row → Action Row
  upsert_found claims refreshed created (some user) =
      Action.update env "user" (id_of user) (profile_of claims refreshed)
  upsert_found claims refreshed created none = do
    id ← random_uuid env
    user ←
        Action.create env "user"
          (("id", str id) ∷ ("firebaseUid", str claims.uid) ∷ profile_of claims created)
    create_sync_state (id_of user)
    pure user

  -- `prisma.user.upsert`
  unfoldable pub upsert_user : VerifiedClaims → Action Row
  unfolding upsert_found
  upsert_user claims = do
    refreshed ← now env
    created ← now env
    found ← Action.find_first env "user" (by_uid claims.uid)
    upsert_found claims refreshed created found

  -- From the upsert on.
  unfoldable pub refresh_principal : VerifiedClaims → Action AuthenticatedUser
  unfolding upsert_user cache_principal
  refresh_principal claims = do
    user ← upsert_user claims
    cache_principal user
    pure (record {
      id = id_of user;
      firebase_uid = text (get "firebaseUid" user);
      email = get "email" user;
      is_anonymous = claims.anonymous;
    })

  unfoldable pub resolve_by : VerifiedClaims → Option CachedPrincipal → Action AuthenticatedUser
  unfolding refresh_principal
  resolve_by claims none = refresh_principal claims
  resolve_by claims (some cached) = do
    at ← now env
    if is_current at claims cached
        then pure (record {
          id = cached.id;
          firebase_uid = cached.firebase_uid;
          email = cached.email;
          is_anonymous = claims.anonymous;
        })
        else refresh_principal claims

  unfoldable pub resolve_principal : VerifiedClaims → Action AuthenticatedUser
  unfolding resolve_by
  resolve_principal claims s = resolve_by claims (lookup claims.uid s.principals) s

  abbrev pub live_user : Option Row → Action Row
  live_user none = throw (not_found "User not found")
  live_user (some user) =
      if is_nullish (get "deletedAt" user) then pure user else throw (not_found "User not found")

  unfoldable pub find_by_id : String → Action Row
  find_by_id user_id = do
    user ← Action.find_first env "user" (("id", equals (str user_id)) ∷ [])
    live_user user

  unfoldable pub update_profile : String → Row → Action Row
  update_profile user_id columns = Action.update env "user" user_id columns

-- `this.principals.delete(uid)`
unfoldable pub forget : String → Action (Unit {0})
forget uid s = (pure tt) (record s { principals = without (λ k. k == uid) s.principals })

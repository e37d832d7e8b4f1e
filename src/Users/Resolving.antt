-- ===== src/Users/Resolving.antt =====
-- Resolving the principal of a request, whatever the upsert comes to.
use planner_api.Common.{
  ℕ, ◌+◌, String, ◌≡◌, refl, sym, ap, ◌∙◌, false, Option, none, some, List, ◌∷◌, eq_iff, arith, inl,
  inr, Bool-cases, Option-cases,
}
use planner_api.Store.Value.{str, Row, get, has, id_of, text, spread, get-append}
use planner_api.Store.Query.{matches}
use planner_api.Store.Db.{Result, ok, err, Db, stored, store, Stored, lookup, defined, update_row}
use planner_api.Store.Effects.{keeps_links-has, stored-store, has-defined}
use planner_api.Store.Action.{
  Action, World, CachedPrincipal, pure, continue, ◌>>=◌, ◌>>◌, Env, now, random_uuid,
}
use planner_api.Store.Action
use planner_api.Crud.Rows.{text_of_value_eq}
use planner_api.Users.{
  VerifiedClaims, AuthenticatedUser, evicted, cached_of, by_uid, profile_of, cache_principal,
  create_sync_state, upsert_found, upsert_user, refresh_principal, resolve_by, resolve_principal,
  is_current,
}
use planner_api.Users.Identity.{
  uid_of, Names, IsRight, CacheIsRight, Names-store, All-imp, All-put_entry, All-lookup,
  All-evicted,
}

-- What the write of a user row does to the rest.
record Extends (l : List (String × CachedPrincipal)) (d : Db) (t : World) : Type 0 where
  pub principals_same : t.principals ≡ l
  pub names : (id uid : String) → Names id uid d → Names id uid t.db

CacheIsRight-Extends : (s t : World) → Extends s.principals s.db t → CacheIsRight s → CacheIsRight t
CacheIsRight-Extends s t x h =
    rw x.principals_same
      (All-imp (IsRight s.db) (IsRight t.db) s.principals (λ e r. (r.0, x.names e.1.id e.0 r.1)) h)

profile-lacks :
    (env : Env) (claims : VerifiedClaims) (at : ℕ) (k : String)
    → has k (profile_of env claims at) ≡ false
    → (r : Row) → get k (spread r (defined (profile_of env claims at))) ≡ get k r
profile-lacks env claims at k h r = ground (
  arith,
  get-append k (defined (profile_of env claims at)) r,
  has-defined k (profile_of env claims at) h,
)

-- A user row that an upsert returns: stored, of the claims' uid, the others as they were.
record Upserted (claims : VerifiedClaims) (l : List (String × CachedPrincipal)) (d : Db) (u : Row)
    (t : World) : Type 0 where
  pub there : Stored "user" u t.db
  pub named : uid_of u ≡ claims.uid
  pub extends : Extends l d t

abbrev Outcome : VerifiedClaims → List (String × CachedPrincipal) → Db → Result Row × World → Type 0
Outcome claims l d (ok u, t) = Upserted claims l d u t
Outcome claims l d (err e, t) = Extends l d t

stored_now : (j : String) (new : Row) (d : Db) → stored "user" j (store "user" j new d) ≡ some new
stored_now j new d = ground (arith, stored-store "user" j "user" j new d, eq_iff j j)

module _ (env : Env) (claims : VerifiedClaims) where
  abbrev refreshed_row : ℕ → Row → Row
  refreshed_row at q = spread q (defined (profile_of env claims at))

  update_row-profile :
      (at : ℕ) (q : Row) (d : Db)
      → Stored "user" q d
      → update_row "user" (id_of q) (profile_of env claims at) d
        ≡ (ok (refreshed_row at q), store "user" (id_of q) (refreshed_row at q) d)
  update_row-profile at q d there = rw there (
      ground (
        arith,
        ap text (profile-lacks env claims at "id" refl q),
        eq_iff (id_of (refreshed_row at q)) (id_of q),
      ))

  update-Outcome :
      (at : ℕ) (s : World) (q : Row)
      → Stored "user" q s.db
      → uid_of q ≡ claims.uid
      → Outcome claims s.principals s.db
          (Action.update env "user" (id_of q) (profile_of env claims at) s)
  unfolding Action.update
  update-Outcome at s q there named =
      let new = refreshed_row at q in
      let links =
        keeps_links-has "user" (id_of q) (profile_of env claims at)
          (has-defined "id" (profile_of env claims at) refl) in
      let same_id : id_of new ≡ id_of q = ap text (profile-lacks env claims at "id" refl q) in
      let same_uid : uid_of new ≡ uid_of q =
        ap text (profile-lacks env claims at "firebaseUid" refl q) in
      rw (env.prisma.update_lem "user" (id_of q) (profile_of env claims at) s.db links) (
        rw (update_row-profile at q s.db there) (record {
          there = rw same_id (stored_now (id_of q) new s.db);
          named = same_uid ∙ named;
          extends = record {
            principals_same = refl;
            names = λ id uid n. Names-store (id_of q) new s.db id uid (rw there same_uid) n;
          };
        }))

  abbrev created_row : ℕ → String → Row
  created_row at id =
      spread (env.prisma.defaults "user")
        (defined (("id", str id) ∷ ("firebaseUid", str claims.uid) ∷ profile_of env claims at))

  create-Outcome :
      (at : ℕ) (s : World) (id : String)
      → Outcome claims s.principals s.db (
          (do
            user ←
                Action.create env "user"
                  (("id", str id) ∷ ("firebaseUid", str claims.uid) ∷ profile_of env claims at)
            create_sync_state env (id_of user)
            pure user)
            s)
  unfolding Action.create ◌>>=◌ pure
  create-Outcome at s id =
      rw
        (env.prisma.create_lem "user"
          (("id", str id) ∷ ("firebaseUid", str claims.uid) ∷ profile_of env claims at) s.db)
        (elim (Option-cases (stored "user" id s.db)) [
          | inl free ↦ rw free (record {
            there = stored_now id (created_row at id) s.db;
            named = refl;
            extends = record {
              principals_same = refl;
              names = λ j uid n. Names-store id (created_row at id) s.db j uid (rw free tt) n;
            };
          })
          | inr (q, taken) ↦ rw taken (record { principals_same = refl; names = λ j uid n. n })
        ])

  upsert_found-Outcome :
      (a b : ℕ) (o : Option Row) (s : World)
      → o ≡ env.prisma.find_first "user" (by_uid claims.uid) s.db
      → Outcome claims s.principals s.db (upsert_found env claims a b o s)
  unfolding upsert_found random_uuid ◌>>=◌ pure matches
  upsert_found-Outcome a b (some q) s e =
      let (there, fits) = env.prisma.find_first-some "user" (by_uid claims.uid) s.db q (sym e) in
      update-Outcome a s q there (text_of_value_eq (get "firebaseUid" q) claims.uid (ground arith))
  upsert_found-Outcome a b none s e =
      create-Outcome b (record s { uuids = s.uuids + 1 }) (env.uuid s.uuids)

  upsert_user-Outcome : (s : World) → Outcome claims s.principals s.db (upsert_user env claims s)
  unfolding upsert_user now Action.find_first ◌>>=◌ pure
  upsert_user-Outcome s =
      upsert_found-Outcome (env.time s.times) (env.time (s.times + 1)) _
        (record s { times = s.times + 1 + 1 }) refl

  cache_principal-CacheIsRight :
      (u : Row) (t : World)
      → Stored "user" u t.db
      → CacheIsRight t
      → CacheIsRight (cache_principal env u t).1
  unfolding cache_principal now ◌>>=◌ pure
  cache_principal-CacheIsRight u t there h =
      All-put_entry (IsRight t.db) (uid_of u) (cached_of u (env.time t.times))
        (evicted t.principals) (refl, (u, there, refl)) (All-evicted (IsRight t.db) t.principals h)

  -- The principal is that of the claims: a stored user with their uid, a guest if they say so.
  abbrev pub IsFor : AuthenticatedUser → World → Type 0
  IsFor p t =
      (p.firebase_uid ≡ claims.uid)
      × (p.is_anonymous ≡ claims.anonymous)
      × Names p.id claims.uid t.db

  -- What resolving leads to: a cache that is right, and the principal of the claims.
  abbrev Resolved : Result AuthenticatedUser × World → Type 0
  Resolved (ok p, t) = CacheIsRight t × IsFor p t
  Resolved (err e, t) = CacheIsRight t

  refresh_principal-Resolved :
      (s : World) → CacheIsRight s → Resolved (refresh_principal env claims s)
  unfolding refresh_principal cache_principal now ◌>>=◌ pure
  refresh_principal-Resolved s h = go (upsert_user env claims s) (upsert_user-Outcome s)
    where
      principal_of : Row → AuthenticatedUser
      principal_of user = record {
        id = id_of user;
        firebase_uid = text (get "firebaseUid" user);
        email = get "email" user;
        is_anonymous = claims.anonymous;
      }

      go :
          (r : Result Row × World)
          → Outcome claims s.principals s.db r
          → Resolved (continue r (λ user. cache_principal env user >> pure (principal_of user)))
      go (ok u, t) x = (
        cache_principal-CacheIsRight u t x.there (CacheIsRight-Extends s t x.extends h),
        (x.named, refl, (u, x.there, x.named)),
      )
      go (err e, t) x = CacheIsRight-Extends s t x h

  resolve_by-Resolved :
      (o : Option CachedPrincipal) (s : World)
      → CacheIsRight s
      → o ≡ lookup claims.uid s.principals
      → Resolved (resolve_by env claims o s)
  unfolding resolve_by now ◌>>=◌ pure
  resolve_by-Resolved none s h e = refresh_principal-Resolved s h
  resolve_by-Resolved (some c) s h e = elim (Bool-cases (is_current (env.time s.times) claims c)) [
    | inl y ↦
        let right = All-lookup (IsRight s.db) claims.uid c s.principals h (sym e) in
        rw y (h, (right.0, refl, right.1))
    | inr n ↦ rw n (refresh_principal-Resolved (record s { times = s.times + 1 }) h)
  ]

  resolve_principal-Resolved :
      (s : World) → CacheIsRight s → Resolved (resolve_principal env claims s)
  unfolding resolve_principal
  resolve_principal-Resolved s h = resolve_by-Resolved (lookup claims.uid s.principals) s h refl

-- Each entry of the cache of principals stands for a stored user with the Firebase uid that is its
-- key: resolving a principal, whatever comes of it, keeps that so.
pub resolve_principal-CacheIsRight :
    (env : Env) (claims : VerifiedClaims) (s : World)
    → CacheIsRight s
    → CacheIsRight (resolve_principal env claims s).1
resolve_principal-CacheIsRight env claims s h =
    go (resolve_principal env claims s) (resolve_principal-Resolved env claims s h)
  where
    go : (r : Result AuthenticatedUser × World) → Resolved env claims r → CacheIsRight r.1
    go (ok p, t) x = x.0
    go (err e, t) x = x

-- While the cache is right, the principal that verified claims resolve to, cached or not, has their
-- uid, is a guest exactly if they say so, and its id is that of a stored user with that uid.
pub resolve_principal-IsFor :
    (env : Env) (claims : VerifiedClaims) (s : World) (p : AuthenticatedUser)
    → CacheIsRight s
    → (resolve_principal env claims s).0 ≡ ok p
    → IsFor env claims p (resolve_principal env claims s).1
resolve_principal-IsFor env claims s p h e =
    go (resolve_principal env claims s) (resolve_principal-Resolved env claims s h) e
  where
    go :
        (r : Result AuthenticatedUser × World)
        → Resolved env claims r
        → r.0 ≡ ok p
        → IsFor env claims p r.1
    go (ok q, t) x e = let same : q ≡ p = cc in rw (← same) x.1
    go (err x, t) y e = cc

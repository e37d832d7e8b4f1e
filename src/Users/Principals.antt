-- ===== src/Users/Principals.antt =====
-- The principal that a request is given, and what the cache of principals holds.
use planner_api.Common.{ℕ, ◌≤◌, ◌+◌, String, Option, none, some, List, [], ◌∷◌, arith, length, drop}
use planner_api.Store.Value.{Row, get, text}
use planner_api.Store.Db.{put_entry, lookup}
use planner_api.Store.Action.{
  Action, World, CachedPrincipal, pure, continue, ◌>>=◌, ◌>>◌, Env, now, random_uuid,
}
use planner_api.Store.Action
use planner_api.Store.Outcome.{Maintains, Maintains-pure, Maintains-bind, Maintains-if}
use planner_api.Users.{
  VerifiedClaims, principal_cache_max, evicted, cached_of, cache_principal, upsert_found,
  upsert_user, refresh_principal, resolve_by, resolve_principal, is_current,
}

-- The cache holds no more entries than its cap.
abbrev pub IsBounded : World → Type 0
IsBounded s = length s.principals ≤ principal_cache_max

length-put_entry :
    {A : Type 0} (k : String) (a : A) (l : List (String × A))
    → length (put_entry k a l) ≤ length l + 1
length-put_entry k a [] = omega arith
length-put_entry k a ((j, b) ∷ l) = ground (arith, length-put_entry k a l)

length-drop_one : {A : Type 0} (l : List A) → length (drop 1 l) ≤ length l
length-drop_one [] = omega arith
length-drop_one (x ∷ l) = omega arith

shorter : {A : Type 0} (l : List A) → 1 ≤ length l → length (drop 1 l) + 1 ≤ length l
shorter [] h = omega arith
shorter (x ∷ l) h = omega arith

length-evicted :
    (l : List (String × CachedPrincipal))
    → length l ≤ principal_cache_max
    → length (evicted l) + 1 ≤ principal_cache_max
length-evicted l h = ground (arith, h, shorter l)

module _ (env : Env) where
  IsBounded-cache_principal : (user : Row) → Maintains IsBounded (cache_principal env user)
  unfolding cache_principal now ◌>>=◌ pure
  IsBounded-cache_principal user = record {
    at = λ s h.
        let one =
          length-put_entry (text (get "firebaseUid" user)) (cached_of user (env.time s.times))
            (evicted s.principals) in
        let two = length-evicted s.principals h in omega (arith, one, two);
  }

  IsBounded-upsert_user : (claims : VerifiedClaims) → Maintains IsBounded (upsert_user env claims)
  unfolding upsert_user now Action.find_first upsert_found Action.update Action.create random_uuid
      pure
  IsBounded-upsert_user claims =
      Maintains-bind IsBounded _ _ (record { at = λ s h. h })
        λ t.
          Maintains-bind IsBounded _ _ (record { at = λ s h. h })
            λ u. Maintains-bind IsBounded _ _ (record { at = λ s h. h }) λ o. found t u o
    where
      found : (t u : ℕ) (o : Option Row) → Maintains IsBounded (upsert_found env claims t u o)
      found t u (some r) = record { at = λ s h. h }
      found t u none =
          Maintains-bind IsBounded _ _ (record { at = λ s h. h })
            λ id.
              Maintains-bind IsBounded _ _ (record { at = λ s h. h })
                λ r.
                  Maintains-bind IsBounded _ _ (record { at = λ s h. h })
                    λ x. Maintains-pure IsBounded r

  IsBounded-refresh_principal :
      (claims : VerifiedClaims) → Maintains IsBounded (refresh_principal env claims)
  unfolding refresh_principal
  IsBounded-refresh_principal claims =
      Maintains-bind IsBounded _ _ (IsBounded-upsert_user claims) λ u.
        Maintains-bind IsBounded _ _ (IsBounded-cache_principal u) λ x. Maintains-pure IsBounded _

  -- Resolving the principal of a request keeps the cache of principals within its cap.
  pub resolve_principal-IsBounded :
      (claims : VerifiedClaims) (s : World)
      → IsBounded s
      → IsBounded (resolve_principal env claims s).1
  unfolding resolve_principal resolve_by now
  resolve_principal-IsBounded claims s h = (by_entry (lookup claims.uid s.principals)).at s h
    where
      by_entry : (o : Option CachedPrincipal) → Maintains IsBounded (resolve_by env claims o)
      by_entry none = IsBounded-refresh_principal claims
      by_entry (some c) =
          Maintains-bind IsBounded _ _ (record { at = λ s h. h })
            λ t.
              Maintains-if IsBounded (is_current t claims c) _ _ (Maintains-pure IsBounded _)
                (IsBounded-refresh_principal claims)

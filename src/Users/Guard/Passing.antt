-- ===== src/Users/Guard/Passing.antt =====
-- Whom the guard lets through.
use planner_api.Common.{
  String, ◌≡◌, ◌≢◌, refl, sym, Bool, true, false, Option, none, some, ◌==◌, if◌then◌else◌, eq_iff,
  arith,
}
use planner_api.Store.Db.{Result, ok, err, unauthorized}
use planner_api.Store.Action.{Action, World, pure, throw, ◌>>=◌, Env, continue}
use planner_api.Storage.{calls_so_far}
use planner_api.Users.{AuthenticatedUser, resolve_principal}
use planner_api.Users.Identity.{CacheIsRight}
use planner_api.Users.Resolving.{IsFor, resolve_principal-IsFor}
use planner_api.Users.Guard.{
  DecodedIdToken, Firebase, claims_of, extract_bearer_token, resolve_verified, check_token,
  can_activate,
}

-- What lets a request pass: a token in its header that is not empty and that Firebase verified, and
-- the principal of that token's claims.
pub record Passes (env : Env) (firebase : Firebase) (authorization : Option String) (s t : World)
    (x : Option AuthenticatedUser) : Type 0 where
  pub token : String
  pub decoded : DecodedIdToken
  pub user : AuthenticatedUser
  pub sent : extract_bearer_token authorization ≡ some token
  pub present : token ≢ ""
  pub verified : firebase.verify_id_token s.calls token ≡ some decoded
  pub principal : x ≡ some user
  pub right : IsFor env (claims_of decoded) user t

module _ (env : Env) (firebase : Firebase) where
  resolve_verified-IsFor :
      (d : DecodedIdToken) (s : World) (x : Option AuthenticatedUser)
      → CacheIsRight s
      → (resolve_verified env firebase (some d) s).0 ≡ ok x
      → (p : AuthenticatedUser) × (x ≡ some p)
        × IsFor env (claims_of d) p (resolve_verified env firebase (some d) s).1
  unfolding ◌>>=◌ pure
  resolve_verified-IsFor d s x right h =
      go (resolve_principal env (claims_of d) s)
        (λ p. resolve_principal-IsFor env (claims_of d) s p right) h
    where
      go :
          (r : Result AuthenticatedUser × World)
          → ((p : AuthenticatedUser) → r.0 ≡ ok p → IsFor env (claims_of d) p r.1)
          → (continue r (λ user. pure (some user))).0 ≡ ok x
          → (p : AuthenticatedUser) × (x ≡ some p)
            × IsFor env (claims_of d) p (continue r (λ user. pure (some user))).1
      go (ok p, t) k e = let same : some p ≡ x = cc in (p, sym same, k p refl)
      go (err y, t) k e = cc

  -- While the cache of principals is right, a request to a route that is not public passes only with
  -- a bearer token that Firebase verified, and as the principal of that token's claims.
  pub can_activate-Passes :
      (authorization : Option String) (s : World) (x : Option AuthenticatedUser)
      → CacheIsRight s
      → (can_activate env firebase false authorization s).0 ≡ ok x
      → Passes env firebase authorization s (can_activate env firebase false authorization s).1 x
  unfolding can_activate ◌>>=◌ pure throw
  can_activate-Passes authorization s x right h =
      by_token (extract_bearer_token authorization) refl h
    where
      by_answer :
          (token : String)
          → extract_bearer_token authorization ≡ some token
          → token ≢ ""
          → (o : Option DecodedIdToken) → firebase.verify_id_token s.calls token ≡ o
          → (resolve_verified env firebase o s).0 ≡ ok x
          → Passes env firebase authorization s (resolve_verified env firebase o s).1 x
      by_answer token sent present none e h = cc
      by_answer token sent present (some d) e h =
          let (p, same, for) = resolve_verified-IsFor d s x right h in
          record {
            token = token;
            decoded = d;
            user = p;
            sent = sent;
            present = present;
            verified = e;
            principal = same;
            right = for;
          }

      verify : String → Action (Option AuthenticatedUser)
      verify token = do
        calls ← calls_so_far
        resolve_verified env firebase (firebase.verify_id_token calls token)

      by_test :
          (token : String)
          → extract_bearer_token authorization ≡ some token
          → (b : Bool) → (token == "") ≡ b
          → ((if b then throw (unauthorized "No ID token provided") else verify token) s).0 ≡ ok x
          → Passes env firebase authorization s
              ((if b then throw (unauthorized "No ID token provided") else verify token) s).1
              x
      by_test token sent true e h = cc
      by_test token sent false e h =
          by_answer token sent (λ empty. ground (arith, eq_iff token "", e, empty))
            (firebase.verify_id_token s.calls token) refl h

      by_token :
          (o : Option String)
          → extract_bearer_token authorization ≡ o
          → (check_token env firebase o s).0 ≡ ok x
          → Passes env firebase authorization s (check_token env firebase o s).1 x
      by_token none e h = cc
      by_token (some token) e h = by_test token e (token == "") refl h

-- ===== src/Users/Guard.antt =====
-- common/guards/firebase-auth.guard.ts, modules/auth/claims.ts and what the services ask of Firebase
-- (modules/auth/firebase-admin.service.ts).
pub mod Bearer
pub mod Passing
use Prim.Native.String as Text
use planner_api.Common.{
  String, Bool, true, false, Option, none, some, List, [], ◌∷◌, ◌==◌, if◌then◌else◌,
}
use planner_api.Common.Texts.{split_at}
use planner_api.Store.Value.{Value, str}
use planner_api.Store.Db.{unauthorized, failure}
use planner_api.Store.Action.{Action, World, Call, delete_user, pure, throw, ◌>>=◌, ◌>>◌, Env}
use planner_api.Storage.{note_call, calls_so_far}
use planner_api.Users.{VerifiedClaims, AuthenticatedUser, resolve_principal}

-- What is read of `DecodedIdToken`; `name` is a claim of any type.
pub record DecodedIdToken : Type 0 where
  pub uid : String
  pub email : Option String
  pub name : Value
  pub picture : Option String
  pub sign_in_provider : Option String

-- Firebase. `verify_id_token` is none where it throws, `delete_user` the code of the error it throws;
-- its answers may change from call to call.
pub record Firebase : Type 0 where
  pub verify_id_token : List Call → String → Option DecodedIdToken
  pub delete_user : List Call → String → Option String

abbrev pub is_provider : Option String → String → Bool
is_provider none p = false
is_provider (some q) p = q == p

-- isAnonymous
unfoldable pub is_anonymous : DecodedIdToken → Bool
is_anonymous claims = is_provider claims.sign_in_provider "anonymous"

abbrev pub or_failure : Option String → Action (Unit {0})
or_failure none = pure tt
or_failure (some code) = throw (failure code)

-- FirebaseAdminService.deleteUser
unfoldable pub delete_firebase_user : Firebase → String → Action (Unit {0})
delete_firebase_user firebase uid = do
  calls ← calls_so_far
  note_call (delete_user uid)
  or_failure (firebase.delete_user calls uid)

abbrev pub bearer_of : List String → Option String
bearer_of (type ∷ token ∷ parts) = if type == "Bearer" then some token else none
bearer_of _ = none

unfoldable pub extract_bearer_token : Option String → Option String
unfolding split_at
extract_bearer_token none = none
extract_bearer_token (some authorization) = bearer_of (split_at " " authorization)

abbrev text_claim : Value → Option String
text_claim (str s) = some s
text_claim _ = none

unfoldable pub claims_of : DecodedIdToken → VerifiedClaims
unfolding is_anonymous
claims_of claims = record {
  uid = claims.uid;
  email = claims.email;
  name = text_claim claims.name;
  picture = claims.picture;
  anonymous = is_anonymous claims;
}

module _ (env : Env) (firebase : Firebase) where
  abbrev pub resolve_verified : Option DecodedIdToken → Action (Option AuthenticatedUser)
  resolve_verified none = throw (unauthorized "Invalid or expired ID token")
  resolve_verified (some claims) = do
    user ← resolve_principal env (claims_of claims)
    pure (some user)

  -- `if (!token)`: an absent token or an empty one.
  abbrev pub check_token : Option String → Action (Option AuthenticatedUser)
  check_token none = throw (unauthorized "No ID token provided")
  check_token (some token) =
      if token == ""
      then throw (unauthorized "No ID token provided")
      else do calls ← calls_so_far; resolve_verified (firebase.verify_id_token calls token)

  -- The guard lets the request through with the principal it sets, none on a public route.
  unfoldable pub can_activate : Bool → Option String → Action (Option AuthenticatedUser)
  unfolding extract_bearer_token claims_of
  can_activate true authorization = pure none
  can_activate false authorization = check_token (extract_bearer_token authorization)

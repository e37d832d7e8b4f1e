-- ===== src/Users/Account/Adoption.antt =====
-- Who may merge a guest's account into another.
use planner_api.Common.{
  ℕ, String, ◌≡◌, ◌≢◌, refl, sym, ap, ◌∙◌, true, false, not, Option, none, some, ◌==◌, eq_iff,
  arith,
}
use planner_api.Store.Db.{ok}
use planner_api.Store.Action.{World, pure, throw, throw_if, Env}
use planner_api.Store.Outcome.{bind-ok, throw_if-ok, IsRead-throw_if, ok_same}
use planner_api.Storage.{ObjectStore, calls_so_far}
use planner_api.Users.{AuthenticatedUser}
use planner_api.Users.Guard.{Firebase, DecodedIdToken, is_anonymous}
use planner_api.Users.Account.{adopt_verified, adopt_anonymous}

-- A real account, and a token that Firebase verified to be of a guest who is somebody else.
pub record IsAllowed (firebase : Firebase) (target : AuthenticatedUser) (token : String) (s : World)
    : Type 0 where
  pub claims : DecodedIdToken
  pub real : target.is_anonymous ≡ false
  pub verified : firebase.verify_id_token s.calls token ≡ some claims
  pub guest : is_anonymous claims ≡ true
  pub other : claims.uid ≢ target.firebase_uid

module _ (env : Env) (objects : ObjectStore) (firebase : Firebase) where
  verified-ok :
      (target : AuthenticatedUser) (o : Option DecodedIdToken) (s : World) (n : ℕ)
      → (adopt_verified env objects firebase target o s).0 ≡ ok n
      → (claims : DecodedIdToken) × (o ≡ some claims)
        × (is_anonymous claims ≡ true)
        × (claims.uid ≢ target.firebase_uid)
  unfolding adopt_verified throw
  verified-ok target none s n h = cc
  verified-ok target (some claims) s n h =
      let (a, t, e, rest) = bind-ok (throw_if (not (is_anonymous claims)) _) _ s n h in
      let (b, u, f, rest') = bind-ok (throw_if (claims.uid == target.firebase_uid) _) _ t n rest in
      let guest = throw_if-ok _ _ s (ap (λ r. r.0) e) in
      let apart = throw_if-ok _ _ t (ap (λ r. r.0) f) in
      (
        claims,
        refl,
        ground (arith, guest),
        λ same. ground (arith, apart, eq_iff claims.uid target.firebase_uid, same),
      )

  -- A merge succeeds only for a real account with a token that Firebase verified to be of a guest
  -- other than the account itself.
  pub adopt_anonymous-IsAllowed :
      (target : AuthenticatedUser) (token : String) (s : World) (n : ℕ)
      → (adopt_anonymous env objects firebase target token s).0 ≡ ok n
      → IsAllowed firebase target token s
  unfolding adopt_anonymous pure
  adopt_anonymous-IsAllowed target token s n h =
      let (a, t, e, rest) = bind-ok (throw_if target.is_anonymous _) _ s n h in
      let same : t ≡ s = sym (ap (λ r. r.1) e) ∙ (IsRead-throw_if _ _).at s in
      let (calls, u, f, rest') = bind-ok calls_so_far _ t n rest in
      let seen : s.calls ≡ calls = ap (λ w. w.calls) (sym same) ∙ ok_same (ap (λ r. r.0) f) in
      let (claims, found, guest, other) =
        verified-ok target (firebase.verify_id_token calls token) u n rest' in
      record {
        claims = claims;
        real = throw_if-ok _ _ s (ap (λ r. r.0) e);
        verified = ap (λ c. firebase.verify_id_token c token) seen ∙ found;
        guest = guest;
        other = other;
      }

-- ===== src/Users/Account/Deletion.antt =====
-- The erasure of an account, and its deletion on request: Firebase first.
use planner_api.Common.{ℕ, String, ◌≡◌, refl, Option, none, some, List, [], ◌∷◌, ◌++◌}
use planner_api.Store.Value.{Row, str}
use planner_api.Store.Db.{Exception, Result, ok, err, Db}
use planner_api.Store.Query.{equals, not_null}
use planner_api.Tasks.{any_order}
use planner_api.Store.Action.{
  Action, World, Call, delete_object, delete_user, pure, throw, throw_if, transaction, settle,
  continue, ◌>>=◌, ◌>>◌, Env,
}
use planner_api.Store.Action
use planner_api.Store.Outcome.{
  Maintains, Maintains-pure, Maintains-throw, Maintains-if, Maintains-bind, Maintains-throw_if,
}
use planner_api.Storage.{ObjectStore, require_client, calls_so_far, note_call}
use planner_api.Storage
use planner_api.Users.{find_by_id, live_user, forget}
use planner_api.Users.Guard.{Firebase, delete_firebase_user, or_failure}
use planner_api.Users.Account.{
  attempt, discard_objects, erase_rows, erase_user, owned_object_keys, delete_account, object_keys,
}
use planner_api.Users.Account.Erasure.{IsErased, erase_rows-ok, closed-IsErased}

module _ (d : Db) where
  abbrev pub HasDb : World → Type 0
  HasDb s = s.db ≡ d

  HasDb-note : (c : Call) → Maintains HasDb (note_call c)
  unfolding pure
  HasDb-note c = record { at = λ s h. h }

  HasDb-calls : Maintains HasDb calls_so_far
  unfolding pure
  HasDb-calls = record { at = λ s h. h }

  HasDb-delete :
      (objects : ObjectStore) (key : String) → Maintains HasDb (Storage.delete objects key)
  unfolding Storage.delete require_client
  HasDb-delete objects key = Maintains-bind HasDb _ _ (Maintains-throw_if HasDb _ _) λ a.
      Maintains-bind HasDb _ _ HasDb-calls
        λ calls. Maintains-bind HasDb _ _ (HasDb-note _) λ b. Maintains-throw_if HasDb _ _

  HasDb-discard_objects :
      (objects : ObjectStore) (keys : List String) → Maintains HasDb (discard_objects objects keys)
  unfolding discard_objects
  HasDb-discard_objects objects [] = Maintains-pure HasDb tt
  HasDb-discard_objects objects (key ∷ keys) =
      Maintains-bind HasDb _ _ attempted λ u. HasDb-discard_objects objects keys
    where
      attempted : Maintains HasDb (attempt (Storage.delete objects key))
      attempted = record { at = λ s h. (HasDb-delete objects key).at s h }

  pub HasDb-delete_firebase_user :
      (firebase : Firebase) (uid : String) → Maintains HasDb (delete_firebase_user firebase uid)
  unfolding delete_firebase_user
  HasDb-delete_firebase_user firebase uid =
      Maintains-bind HasDb _ _ HasDb-calls λ calls.
        Maintains-bind HasDb _ _ (HasDb-note _) λ a. answer (firebase.delete_user calls uid)
    where
      answer : (o : Option String) → Maintains HasDb (or_failure o)
      answer none = Maintains-pure HasDb tt
      answer (some code) = Maintains-throw HasDb _

  pub HasDb-forget : (uid : String) → Maintains HasDb (forget uid)
  unfolding forget pure
  HasDb-forget uid = record { at = λ s h. h }

-- Once it has returned, everything of the user is gone; when it threw, nothing is.
abbrev pub Erases : String → Db → Result ℕ × World → Type 0
Erases user d (ok n, t) = IsErased user d t.db
Erases user d (err e, t) = t.db ≡ d

-- What does not touch the database may come first.
Erases-bind :
    {A : Type 0} (user : String) (m : Action A) (f : A → Action ℕ) (s : World)
    → Maintains (HasDb s.db) m
    → ((a : A) (t : World) → Erases user t.db (f a t))
    → Erases user s.db ((m >>= f) s)
unfolding ◌>>=◌
Erases-bind {A} user m f s k h = go (m s) (k.at s refl)
  where
    go : (r : Result A × World) → r.1.db ≡ s.db → Erases user s.db (continue r f)
    go (ok a, t) same = rw (← same) (h a t)
    go (err e, t) same = same

discard_objects-ok :
    (objects : ObjectStore) (keys : List String) (t : World)
    → (discard_objects objects keys t).0 ≡ ok tt
unfolding discard_objects attempt ◌>>=◌ pure
discard_objects-ok objects [] t = refl
discard_objects-ok objects (key ∷ keys) t = discard_objects-ok objects keys _

module _ (env : Env) (objects : ObjectStore) where
  abbrev finish : List String → ℕ → Action ℕ
  finish keys n = do discard_objects objects keys; pure n

  discarded :
      (user : String) (s t : World) (n : ℕ) (q : Result (Unit {0}) × World)
      → q.0 ≡ ok tt
      → q.1.db ≡ t.db
      → IsErased user s.db t.db
      → Erases user s.db (continue q (λ _. pure n))
  unfolding pure
  discarded user s t n (ok u, w) e same h = rw same h
  discarded user s t n (err x, w) e same h = cc

  settled :
      (user : String) (keys : List String) (s : World) (r : Result ℕ × World)
      → ((n : ℕ) → r.0 ≡ ok n → IsErased user s.db r.1.db)
      → Erases user s.db (continue (settle s.db r) (finish keys))
  unfolding ◌>>=◌
  settled user keys s (ok n, t) h =
      discarded user s t n (discard_objects objects keys t) (discard_objects-ok objects keys t)
        ((HasDb-discard_objects t.db objects keys).at t refl) (h n refl)
  settled user keys s (err x, t) h = refl

  abbrev held_keys : String → Db → List String
  held_keys user d =
      let held = ("userId", equals (str user)) ∷ ("objectKey", not_null) ∷ [] in
      object_keys (
        env.prisma.find_many "attachment" held any_order d
        ++ env.prisma.find_many "voiceNote" held any_order d)

  pub erase_user-Erases :
      (user : String) (s : World) → Erases user s.db (erase_user env objects user s)
  unfolding erase_user owned_object_keys Action.find_many ◌>>=◌ pure transaction
  erase_user-Erases user s =
      settled user (held_keys user s.db) s (erase_rows env user s)
        λ n h. rw (erase_rows-ok env user s n h) (closed-IsErased env user s.db)

  HasDb-find_by_id : (d : Db) (user : String) → Maintains (HasDb d) (find_by_id env user)
  unfolding find_by_id Action.find_first
  HasDb-find_by_id d user = Maintains-bind (HasDb d) _ _ (record { at = λ s h. h }) λ o. live o
    where
      live : (o : Option Row) → Maintains (HasDb d) (live_user env o)
      live none = Maintains-throw (HasDb d) _
      live (some r) =
          Maintains-if (HasDb d) _ _ _ (Maintains-pure (HasDb d) r) (Maintains-throw (HasDb d) _)

module _ (env : Env) (objects : ObjectStore) (firebase : Firebase) where
  delete_account-Erases :
      (user : String) (s : World) → Erases user s.db (delete_account env objects firebase user s)
  unfolding delete_account
  delete_account-Erases user s =
      Erases-bind user _ _ s (HasDb-find_by_id env objects s.db user) λ r t.
        Erases-bind user _ _ t (HasDb-delete_firebase_user t.db firebase _) λ a u.
          Erases-bind user _ _ u (HasDb-forget u.db _) λ b v. erase_user-Erases env objects user v

  -- Once an account is deleted, no row of a synced table is its user's, the user, its devices and its
  -- counter are gone, and every row, user, device and counter that is not the user's is as it was,
  -- but that an optional link of a row to one of the user's rows may be null.
  pub delete_account-IsErased :
      (user : String) (s : World) (n : ℕ)
      → (delete_account env objects firebase user s).0 ≡ ok n
      → IsErased user s.db (delete_account env objects firebase user s).1.db
  delete_account-IsErased user s n h =
      go (delete_account env objects firebase user s) (delete_account-Erases user s) h
    where
      go : (r : Result ℕ × World) → Erases user s.db r → r.0 ≡ ok n → IsErased user s.db r.1.db
      go (ok m, t) x e = x
      go (err y, t) x e = cc

  -- A deletion of an account that throws, in Firebase or here, leaves the database as it was.
  pub delete_account-IsAtomic :
      (user : String) (s : World) (e : Exception)
      → (delete_account env objects firebase user s).0 ≡ err e
      → (delete_account env objects firebase user s).1.db ≡ s.db
  delete_account-IsAtomic user s e h =
      go (delete_account env objects firebase user s) (delete_account-Erases user s) h
    where
      go : (r : Result ℕ × World) → Erases user s.db r → r.0 ≡ err e → r.1.db ≡ s.db
      go (ok m, t) x e = cc
      go (err y, t) x e = x

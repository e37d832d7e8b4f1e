-- ===== src/Users/Account/Merge.antt =====
-- What a merge brings to the account it is merged into.
use planner_api.Common.{
  ℕ, String, ◌≡◌, ◌≢◌, refl, ap, Bool, true, false, some, eq_refl, arith, Occurs, ◌≤◌,
}
use planner_api.Store.Value.{Row, str, get, id_of, is_nullish}
use planner_api.Store.Query.{matches, value_eq}
use planner_api.Store.Db.{Exception, Result, ok, err, stored, Stored}
use planner_api.Store.Action.{
  Action, World, pure, throw, throw_if, transaction, settle, continue, ◌>>=◌, ◌>>◌, Env, counter,
}
use planner_api.Store.Action
use planner_api.Storage.{ObjectStore}
use planner_api.Sync.Registry.{SyncTableDef, sync_tables}
use planner_api.Users.{AuthenticatedUser, by_uid, forget}
use planner_api.Users.Guard.{Firebase, DecodedIdToken, delete_firebase_user}
use planner_api.Users.Account.{
  attempt, move_tables, erase_user, adopt_source, adopt_verified, adopt_anonymous,
}
use planner_api.Users.Account.Moving.{IsMoved, Has}
use planner_api.Users.Account.Brought.{IsBrought, moved-IsBrought}
use planner_api.Users.Account.Tables.{AllMoves, IsGuests, guest_rows, move_tables-AllMoves}
use planner_api.Users.Account.Deletion.{HasDb-delete_firebase_user, Erases, erase_user-Erases}

module _ (env : Env) (objects : ObjectStore) (firebase : Firebase) (target : String) (base : ℕ)
    (def : SyncTableDef) (r : Row) (source : Row) (begun : World) where
  -- If the merge returns, the row has moved.
  abbrev Brings : Result ℕ × World → Type 0
  Brings (ok n, t) =
      Has (IsBrought (id_of source) target base def.delegate begun.db r)
        (stored def.delegate (id_of r) t.db)
  Brings (err e, t) = Unit

  erased-Brings :
      (n : ℕ) (t : World) (x : Result ℕ × World)
      → target ≢ id_of source
      → Occurs def sync_tables
      → AllMoves env target base (id_of source) sync_tables begun.db (ok n, t)
      → Has (IsMoved target base r) (stored def.delegate (id_of r) t.db)
      → Erases (id_of source) t.db x
      → Brings (continue x (λ m. pure n))
  unfolding pure
  erased-Brings n t (ok m, u) apart o moves moved gone =
      moved-IsBrought env target (id_of source) base n begun.db t apart moves def r u.db o gone
        moved
  erased-Brings n t (err e, u) apart o moves moved gone = tt

  adopt_source-Brings :
      target ≢ id_of source
      → base ≤ counter (begun.db.last_seq target)
      → Occurs def sync_tables
      → IsGuests env target base (id_of source) def.delegate begun.db r
      → Brings (adopt_source env objects target (some source) begun)
  unfolding adopt_source ◌>>=◌ transaction
  adopt_source-Brings apart low o guests =
      go (move_tables env (id_of source) target sync_tables begun)
        (move_tables-AllMoves env target base (id_of source) sync_tables begun low)
    where
      go :
          (x : Result ℕ × World)
          → AllMoves env target base (id_of source) sync_tables begun.db x
          → Brings
              (continue (settle begun.db x) (λ n. erase_user env objects (id_of source) >> pure n))
      go (ok n, t) h =
          erased-Brings n t (erase_user env objects (id_of source) t) apart o h (h.1 def r o guests)
            (erase_user-Erases env objects (id_of source) t)
      go (err e, t) h = tt

  -- What leaves the database alone may come after.
  Brings-after :
      (uid : String) (x : Result ℕ × World)
      → Brings x
      → Brings
          (continue x (λ n. attempt (delete_firebase_user firebase uid) >> (forget uid >> pure n)))
  unfolding attempt forget pure ◌>>=◌
  Brings-after uid (ok n, t) h = rw ((HasDb-delete_firebase_user t.db firebase uid).at t refl) h
  Brings-after uid (err e, t) h = tt

  -- A test comes first.
  Brings-unless :
      (b : Bool) (e : Exception) (m : Action ℕ) (s : World)
      → Brings (m s)
      → Brings ((throw_if b e >> m) s)
  unfolding throw_if throw pure ◌>>=◌
  Brings-unless true e m s h = tt
  Brings-unless false e m s h = h

module _ (env : Env) (objects : ObjectStore) (firebase : Firebase) where
  adopt_verified-Brings :
      (target : AuthenticatedUser) (claims : DecodedIdToken) (source r : Row) (def : SyncTableDef)
      (s : World)
      → env.prisma.find_first "user" (by_uid claims.uid) s.db ≡ some source
      → target.id ≢ id_of source
      → Occurs def sync_tables
      → IsGuests env target.id
          (counter (s.db.last_seq target.id))
          (id_of source)
          def.delegate
          s.db
          r
      → Brings env objects firebase target.id
          (counter (s.db.last_seq target.id))
          def
          r
          source
          s
          (adopt_verified env objects firebase target (some claims) s)
  unfolding adopt_verified Action.find_first ◌>>=◌
  adopt_verified-Brings target claims source r def s found apart o guests =
      let base = counter (s.db.last_seq target.id) in
      Brings-unless env objects firebase target.id base def r source s _ _ _ s (
        Brings-unless env objects firebase target.id base def r source s _ _ _ s (
          rw found (
            Brings-after env objects firebase target.id base def r source s claims.uid _ (
              adopt_source-Brings env objects firebase target.id base def r source s apart
                (omega arith) o guests))))

  adopt_anonymous-outcome :
      (target : AuthenticatedUser) (token : String) (claims : DecodedIdToken) (source r : Row)
      (def : SyncTableDef) (s : World)
      → firebase.verify_id_token s.calls token ≡ some claims
      → env.prisma.find_first "user" (by_uid claims.uid) s.db ≡ some source
      → target.id ≢ id_of source
      → Occurs def sync_tables
      → IsGuests env target.id
          (counter (s.db.last_seq target.id))
          (id_of source)
          def.delegate
          s.db
          r
      → Brings env objects firebase target.id
          (counter (s.db.last_seq target.id))
          def
          r
          source
          s
          (adopt_anonymous env objects firebase target token s)
  unfolding adopt_anonymous ◌>>=◌ pure
  adopt_anonymous-outcome target token claims source r def s verified found apart o guests =
      Brings-unless env objects firebase target.id (counter (s.db.last_seq target.id)) def r source
        s target.is_anonymous _ _ s
        (rw verified (adopt_verified-Brings target claims source r def s found apart o guests))

  -- Once the account of a guest, found by a verified token, has been merged into that of another user,
  -- every row of a synced table that the guest had and had not deleted stands under its id as the
  -- account's, with a number above all that the account had used, and its other columns as they were, but for links to rows that the guest had
  -- deleted, which may be null: to remove those rows clears the links to them.
  pub adopt_anonymous-Brings :
      (target : AuthenticatedUser) (token : String) (claims : DecodedIdToken) (source r : Row)
      (def : SyncTableDef) (s : World) (n : ℕ)
      → firebase.verify_id_token s.calls token ≡ some claims
      → env.prisma.find_first "user" (by_uid claims.uid) s.db ≡ some source
      → target.id ≢ id_of source
      → Occurs def sync_tables
      → Stored def.delegate r s.db
      → get "userId" r ≡ str (id_of source)
      → is_nullish (get "deletedAt" r) ≡ true
      → (adopt_anonymous env objects firebase target token s).0 ≡ ok n
      → Has
          (IsBrought
            (id_of source)
            target.id
            (counter (s.db.last_seq target.id))
            def.delegate
            s.db
            r)
          (stored def.delegate (id_of r) (adopt_anonymous env objects firebase target token s).1.db)
  unfolding matches
  adopt_anonymous-Brings target token claims source r def s n verified found apart o there owned
        live h =
      let fits : matches env.prisma.like (guest_rows env target.id 0 (id_of source)) r ≡ true =
        ground
          (arith, ap (λ v. value_eq v (str (id_of source))) owned, eq_refl (id_of source), live) in
      go (adopt_anonymous env objects firebase target token s)
        (adopt_anonymous-outcome target token claims source r def s verified found apart o
          (there, fits))
        h
    where
      go :
          (x : Result ℕ × World)
          → Brings env objects firebase target.id
              (counter (s.db.last_seq target.id))
              def
              r
              source
              s
              x
          → x.0 ≡ ok n
          → Has
              (IsBrought
                (id_of source)
                target.id
                (counter (s.db.last_seq target.id))
                def.delegate
                s.db
                r)
              (stored def.delegate (id_of r) x.1.db)
      go (ok m, t) b e = b
      go (err y, t) b e = cc

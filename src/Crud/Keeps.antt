-- ===== src/Crud/Keeps.antt =====
-- Rules by which an action is shown to touch only what is its caller's: one for each way to build
-- an action. The guards are the rows that are known to be the caller's.
use planner_api.Common.{
  ℕ, ◌+◌, String, ◌≡◌, refl, ap, Bool, true, false, Option, none, some, List, [], ◌∷◌, ◌==◌, eq_iff,
  arith, if◌then◌else◌, Bool-cases, inl, inr, All, Occurs, All-Occurs,
}
use planner_api.Store.Value.{Row, owner, spread, has}
use planner_api.Store.Query.{Where}
use planner_api.Store.Db.{Exception, Result, ok, err, Db, stored, Order, defined, keeps_links}
use planner_api.Store.Links.{is_referenced}
use planner_api.Store.Effects.{keeps_links-leaf, keeps_links-has}
use planner_api.Store.Action.{
  Action, World, pure, throw, throw_if, continue, transaction, settle, ◌>>=◌, ◌>>◌, Env, now,
  random_uuid, lift,
}
use planner_api.Store.Action
use planner_api.Crud.{allocate, next, find_one}
use planner_api.Crud.Rows.{IsFound, find_one-ok, find_one-cases}
use planner_api.Crud.Isolation.{
  KeepsOwner-has, Isolated, Isolated-refl, Isolated-trans, IsOwn, theirs, KeepsOwner,
  update_row-Isolated, insert_row-Isolated,
}

-- Each guard, a model and an id, finds no row of somebody else.
abbrev pub Owns : String → List (String × String) → Db → Type 0
Owns user g d = All (λ k. IsOwn user (stored k.0 k.1 d)) g

IsOwn-theirs :
    (user : String) (o p : Option Row)
    → ((v : String) → (v == user) ≡ false → theirs v p ≡ theirs v o)
    → IsOwn user o
    → IsOwn user p
IsOwn-theirs user o none h own = tt
IsOwn-theirs user none (some q) h own = elim (Bool-cases (owner q == user)) [
  | inl e ↦ (eq_iff (owner q) user).0 e
  | inr e ↦ ground (arith, h (owner q) e, eq_iff (owner q) (owner q))
]
IsOwn-theirs user (some r) (some q) h own = elim (Bool-cases (owner q == user)) [
  | inl e ↦ (eq_iff (owner q) user).0 e
  | inr e ↦ ground (
    arith,
    h (owner q) e,
    eq_iff (owner q) (owner q),
    eq_iff (owner r) (owner q),
    eq_iff (owner q) user,
  )
]

Owns-Isolated :
    (user : String) (g : List (String × String)) (d e : Db)
    → Isolated user d e
    → Owns user g d
    → Owns user g e
Owns-Isolated user [] d e h own = tt
Owns-Isolated user ((m, id) ∷ g) d e h own = (
  IsOwn-theirs user (stored m id d) (stored m id e) (λ v n. h.rows_same v m id n) own.0,
  Owns-Isolated user g d e h own.1,
)

pub record Keeps (user : String) (g : List (String × String)) {A : Type 0} (m : Action A)
    : Type 0 where
  pub at : (s : World) → Owns user g s.db → Isolated user s.db (m s).1.db

module _ (user : String) (g : List (String × String)) where
  pub Keeps-pure : {A : Type 0} (a : A) → Keeps user g (pure a)
  unfolding pure
  Keeps-pure a = record { at = λ s h. Isolated-refl user s.db }

  pub Keeps-throw : {A : Type 0} (e : Exception) → Keeps user g (throw {A = A} e)
  unfolding throw
  Keeps-throw e = record { at = λ s h. Isolated-refl user s.db }

  pub Keeps-throw_if : (b : Bool) (e : Exception) → Keeps user g (throw_if b e)
  unfolding throw_if
  Keeps-throw_if true e = Keeps-throw e
  Keeps-throw_if false e = Keeps-pure tt

  pub Keeps-bind :
      {A B : Type 0} (m : Action A) (f : A → Action B)
      → Keeps user g m
      → ((a : A) → Keeps user g (f a))
      → Keeps user g (m >>= f)
  unfolding ◌>>=◌
  Keeps-bind {A} {B} m f km kf = record { at = λ s h. go s (m s) (km.at s h) h }
    where
      go :
          (s : World) (r : Result A × World)
          → Isolated user s.db r.1.db
          → Owns user g s.db
          → Isolated user s.db (continue r f).1.db
      go s (ok a, t) i h =
          Isolated-trans user s.db t.db _ i ((kf a).at t (Owns-Isolated user g s.db t.db i h))
      go s (err e, t) i h = i

  pub Keeps-transaction :
      {A : Type 0} (m : Action A) → Keeps user g m → Keeps user g (transaction m)
  unfolding transaction
  Keeps-transaction {A} m km = record { at = λ s h. go s (m s) (km.at s h) }
    where
      go :
          (s : World) (r : Result A × World)
          → Isolated user s.db r.1.db
          → Isolated user s.db (settle s.db r).1.db
      go s (ok a, t) i = i
      go s (err e, t) i = Isolated-refl user s.db

  pub Keeps-if :
      {A : Type 0} (b : Bool) (m n : Action A)
      → Keeps user g m
      → Keeps user g n
      → Keeps user g (if b then m else n)
  Keeps-if true m n km kn = km
  Keeps-if false m n km kn = kn

  pub Keeps-lift : {A : Type 0} (r : Result A) → Keeps user g (lift r)
  Keeps-lift (ok a) = Keeps-pure a
  Keeps-lift (err e) = Keeps-throw e

  -- The rest of the block may use that `r` is a result.
  pub Keeps-lift-bind :
      {A B : Type 0} (r : Result A) (f : A → Action B)
      → ((a : A) → r ≡ ok a → Keeps user g (f a))
      → Keeps user g (lift r >>= f)
  unfolding ◌>>=◌
  Keeps-lift-bind (ok a) f kf = kf a refl
  Keeps-lift-bind (err e) f kf = Keeps-throw e

  pub Keeps-allocate : (n : ℕ) → Keeps user g (allocate user n)
  unfolding allocate
  Keeps-allocate n = record {
    at = λ s h. record {
      rows_same = λ v m id e. refl;
      seq_same = λ v e. ground (arith, eq_iff user v, eq_iff v user);
      clients_same = λ v e. refl;
    };
  }

  pub Keeps-next : Keeps user g (next user)
  unfolding next
  Keeps-next =
      Keeps-bind (allocate user 1) (λ base. pure (base + 1)) (Keeps-allocate 1)
        (λ base. Keeps-pure (base + 1))

  module _ (env : Env) where
    pub Keeps-now : Keeps user g (now env)
    unfolding now
    Keeps-now = record { at = λ s h. Isolated-refl user s.db }

    pub Keeps-random_uuid : Keeps user g (random_uuid env)
    unfolding random_uuid
    Keeps-random_uuid = record { at = λ s h. Isolated-refl user s.db }

    pub Keeps-find_first : (m : String) (w : Where) → Keeps user g (Action.find_first env m w)
    unfolding Action.find_first
    Keeps-find_first m w = record { at = λ s h. Isolated-refl user s.db }

    pub Keeps-find_many :
        (m : String) (w : Where) (le : Order) → Keeps user g (Action.find_many env m w le)
    unfolding Action.find_many
    Keeps-find_many m w le = record { at = λ s h. Isolated-refl user s.db }

    pub Keeps-count : (m : String) (w : Where) → Keeps user g (Action.count env m w)
    unfolding Action.count
    Keeps-count m w = record { at = λ s h. Isolated-refl user s.db }

    pub Keeps-create :
        (m : String) (columns : Row)
        → owner (spread (env.prisma.defaults m) (defined columns)) ≡ user
        → Keeps user g (Action.create env m columns)
    unfolding Action.create
    Keeps-create m columns own = record {
      at = λ s h.
          rw (env.prisma.create_lem m columns s.db) (
            insert_row-Isolated user m (spread (env.prisma.defaults m) (defined columns)) s.db own);
    }

    pub Keeps-update :
        (m id : String) (columns : Row)
        → Occurs (m, id) g
        → KeepsOwner user columns
        → keeps_links m id columns ≡ true
        → Keeps user g (Action.update env m id columns)
    unfolding Action.update
    Keeps-update m id columns o keep same = record {
      at = λ s h. rw (env.prisma.update_lem m id columns s.db same) (
          update_row-Isolated user m id columns s.db
            (All-Occurs (λ k. IsOwn user (stored k.0 k.1 s.db)) (m, id) g h o) keep);
    }

    -- What no table refers to may take another id.
    pub Keeps-update_leaf :
        (m id : String) (columns : Row)
        → Occurs (m, id) g
        → KeepsOwner user columns
        → is_referenced m ≡ false
        → Keeps user g (Action.update env m id columns)
    Keeps-update_leaf m id columns o keep leaf =
        Keeps-update m id columns o keep (keeps_links-leaf m id columns leaf)

    pub Keeps-update_has :
        (m id : String) (columns : Row)
        → Occurs (m, id) g
        → KeepsOwner user columns
        → has "id" (defined columns) ≡ false
        → Keeps user g (Action.update env m id columns)
    Keeps-update_has m id columns o keep h =
        Keeps-update m id columns o keep (keeps_links-has m id columns h)

    pub Keeps-find_one_read :
        (m id : String) (inc : Bool) → Keeps user g (find_one env m user id inc)
    Keeps-find_one_read m id inc = record {
      at = λ s h. elim (find_one-cases env m user id inc s) [
        | inl e ↦ rw e (Isolated-refl user s.db)
        | inr (r, e) ↦ rw e (Isolated-refl user s.db)
      ];
    }

    -- What follows `findOne` may treat the row as the caller's.
    pub Keeps-find_one :
        {B : Type 0} (m id : String) (inc : Bool) (f : Row → Action B)
        → ((r : Row) → IsFound user id inc r → Keeps user ((m, id) ∷ g) (f r))
        → Keeps user g (find_one env m user id inc >>= f)
    unfolding ◌>>=◌
    Keeps-find_one m id inc f kf = record {
      at = λ s h. elim (find_one-cases env m user id inc s) [
        | inl e ↦ rw e (Isolated-refl user s.db)
        | inr (r, e) ↦
            let (there, found) = find_one-ok env m user id inc s r (ap (λ p. p.0) e) in
            rw e ((kf r found).at s (rw there found.owned, h))
      ];
    }

pub ruleset keeps_rules = (
  Keeps-pure, Keeps-throw, Keeps-throw_if, Keeps-if, Keeps-transaction, Keeps-allocate, Keeps-next,
  Keeps-now, Keeps-random_uuid, Keeps-find_many, Keeps-find_first, Keeps-count, Keeps-update,
  Keeps-find_one, Keeps-find_one_read, Keeps-bind, KeepsOwner-has,
)

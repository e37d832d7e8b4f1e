-- ===== src/Crud/Reads.antt =====
-- What the rows of a read with `userId` in its where let the rest of an action do.
use planner_api.Crud.Isolation.{Isolated-refl}
use planner_api.Crud.Rows.{text_of_value_eq}
use planner_api.Crud.{or_throw}
use planner_api.Common.{
  String, ◌≡◌, refl, ap, Bool, true, Option, none, some, List, [], ◌∷◌, ◌++◌, Option-cases, inl,
  inr, Occurs, arith,
}
use planner_api.Store.Value.{Row, owner, id_of, str, get}
use planner_api.Store.Query.{Where, matches, equals, is_null}
use planner_api.Store.Db.{Db, Order, Stored, Exception}
use planner_api.Store.Action.{Action, ◌>>=◌, Env, pure, throw}
use planner_api.Store.Action
use planner_api.Crud.Keeps.{Keeps, Owns}

-- The rows of a model as guards.
abbrev pub ids : String → List Row → List (String × String)
ids m [] = []
ids m (r ∷ rs) = (m, id_of r) ∷ ids m rs

pub Occurs-ids :
    (m : String) (r : Row) (rs : List Row) → Occurs r rs → Occurs (m, id_of r) (ids m rs)
Occurs-ids m r [] o = absurd o
Occurs-ids m r (q ∷ rs) (inl e) = inl (ap (λ x. (m, id_of x)) e)
Occurs-ids m r (q ∷ rs) (inr o) = inr (Occurs-ids m r rs o)

-- The where asks for rows of the user.
abbrev pub AsksOwn : (String → String → Bool) → String → Where → Type 0
AsksOwn like user w = (r : Row) → matches like w r ≡ true → owner r ≡ user

module _ (user : String) (g : List (String × String)) (env : Env) where
  Owns-ids :
      (m : String) (rs : List Row) (d : Db)
      → ((r : Row) → Occurs r rs → Stored m r d × (owner r ≡ user))
      → Owns user g d
      → Owns user (ids m rs ++ g) d
  Owns-ids m [] d h own = own
  Owns-ids m (r ∷ rs) d h own =
      let (there, mine) = h r (inl refl) in
      (rw there mine, Owns-ids m rs d (λ q o. h q (inr o)) own)

  pub Keeps-find_many_own :
      {B : Type 0} (m : String) (w : Where) (le : Order) (f : List Row → Action B)
      → AsksOwn env.prisma.like user w
      → ((rs : List Row) → Keeps user (ids m rs ++ g) (f rs))
      → Keeps user g (Action.find_many env m w le >>= f)
  unfolding ◌>>=◌ Action.find_many
  Keeps-find_many_own m w le f asks kf = record {
    at = λ s h.
        let rs = env.prisma.find_many m w le s.db in
        (kf rs).at s (
          Owns-ids m rs s.db
            (λ r o.
              let (there, fits) = (env.prisma.find_many_iff m w le s.db r).0 o in
              (there, asks r fits))
            h);
  }

  -- A read by id: the row that is found is the caller's.
  pub Keeps-find_first_own :
      {B : Type 0} (m : String) (w : Where) (f : Option Row → Action B)
      → AsksOwn env.prisma.like user w
      → Keeps user g (f none)
      → ((r : Row)
          → matches env.prisma.like w r ≡ true
          → Keeps user ((m, id_of r) ∷ g) (f (some r)))
      → Keeps user g (Action.find_first env m w >>= f)
  unfolding ◌>>=◌ Action.find_first
  Keeps-find_first_own m w f asks missing found = record {
    at = λ s h. elim (Option-cases (env.prisma.find_first m w s.db)) [
      | inl e ↦ rw e (missing.at s h)
      | inr (r, e) ↦
          let (there, fits) = env.prisma.find_first-some m w s.db r e in
          rw e ((found r fits).at s (rw there (asks r fits), h))
    ];
  }

  -- What follows the lookup of a live row of the caller may treat it as the caller's.
  pub Keeps-owned_item :
      {B : Type 0} (m id : String) (e : Exception) (f : Row → Action B)
      → ((r : Row) → Keeps user ((m, id) ∷ g) (f r))
      → Keeps user g (
          (do
            item ← Action.find_first env m (
                ("id", equals (str id))
                ∷ ("userId", equals (str user))
                ∷ ("deletedAt", is_null)
                ∷ [])
            or_throw item (throw e))
          >>= f)
  unfolding ◌>>=◌ Action.find_first matches pure throw
  Keeps-owned_item m id e f kf = record {
    at = λ s h.
        let w : Where =
          ("id", equals (str id)) ∷ ("userId", equals (str user)) ∷ ("deletedAt", is_null) ∷ [] in
        elim (Option-cases (env.prisma.find_first m w s.db)) [
          | inl e ↦ rw e (Isolated-refl user s.db)
          | inr (r, e) ↦
              let (there, fits) = env.prisma.find_first-some m w s.db r e in
              let named : id_of r ≡ id = text_of_value_eq (get "id" r) id (ground arith) in
              let owned : owner r ≡ user = text_of_value_eq (get "userId" r) user (ground arith) in
              rw e ((kf r).at s (rw (rw named at there) owned, h))
        ];
  }

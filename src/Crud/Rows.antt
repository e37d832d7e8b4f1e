-- ===== src/Crud/Rows.antt =====
-- What `findOne` and `assertOwnedOrNull` let through.
use planner_api.Common.{
  String, ◌≡◌, refl, sym, ◌∙◌, Bool, true, false, Option, none, some, [], ◌∷◌, eq_iff, arith, inl,
  inr, ◌⊎◌, ap,
}
use planner_api.Store.Value.{Value, str, Row, get, id_of, owner, text, is_nullish}
use planner_api.Store.Query.{matches, equals, value_eq}
use planner_api.Store.Db.{ok, err, not_found, Db, stored}
use planner_api.Store.Action.{Action, World, pure, throw, continue, ◌>>=◌, ◌>>◌, Env}
use planner_api.Store.Action
use planner_api.Crud.{scope, find_one, or_throw}

pub text_of_value_eq : (v : Value) (t : String) → value_eq v (str t) ≡ true → text v ≡ t
text_of_value_eq (str s) t h = (eq_iff s t).0 h
text_of_value_eq _ t h = cc

pub str_of_value_eq : (v : Value) (t : String) → value_eq v (str t) ≡ true → v ≡ str t
str_of_value_eq (str s) t h = ap str ((eq_iff s t).0 h)
str_of_value_eq _ t h = cc

-- What `findOne` asks of a row.
pub record IsFound (user id : String) (include_deleted : Bool) (r : Row) : Type 0 where
  pub owned : owner r ≡ user
  pub named : id_of r ≡ id
  pub live : include_deleted ≡ false → is_nullish (get "deletedAt" r) ≡ true

scope_one-IsFound :
    (like : String → String → Bool) (user id : String) (inc : Bool) (r : Row)
    → matches like (scope user (("id", equals (str id)) ∷ []) inc) r ≡ true
    → IsFound user id inc r
unfolding scope matches
scope_one-IsFound like user id true r h = record {
  owned = text_of_value_eq (get "userId" r) user (ground arith);
  named = text_of_value_eq (get "id" r) id (ground arith);
  live = λ e. cc;
}
scope_one-IsFound like user id false r h = record {
  owned = text_of_value_eq (get "userId" r) user (ground arith);
  named = text_of_value_eq (get "id" r) id (ground arith);
  live = λ e. ground arith;
}

module _ (env : Env) where
  pub find_one_lem :
      (model user id : String) (inc : Bool) (d : Db) (o : Option Row) (r : Row)
      → o ≡ env.prisma.find_first model (scope user (("id", equals (str id)) ∷ []) inc) d
      → o ≡ some r
      → (stored model id d ≡ some r) × IsFound user id inc r
  find_one_lem model user id inc d o r e f =
      let (there, fits) =
        env.prisma.find_first-some model (scope user (("id", equals (str id)) ∷ []) inc) d r
          (sym e ∙ f) in
      let found : IsFound user id inc r = scope_one-IsFound env.prisma.like user id inc r fits in
      (rw (← found.named) there, found)

  -- A row that `findOne` returns is stored under the id that was asked for, belongs to the caller,
  -- and is not deleted unless deleted rows were asked for too.
  pub find_one-ok :
      (model user id : String) (inc : Bool) (s : World) (r : Row)
      → (find_one env model user id inc s).0 ≡ ok r
      → (stored model id s.db ≡ some r) × IsFound user id inc r
  unfolding find_one Action.find_first ◌>>=◌
  find_one-ok model user id inc s r h =
      go (env.prisma.find_first model (scope user (("id", equals (str id)) ∷ []) inc) s.db) refl h
    where
      go :
          (o : Option Row)
          → o ≡ env.prisma.find_first model (scope user (("id", equals (str id)) ∷ []) inc) s.db
          → (or_throw o (throw (not_found model)) s).0 ≡ ok r
          → (stored model id s.db ≡ some r) × IsFound user id inc r
      go none e g = cc
      go (some q) e g = find_one_lem model user id inc s.db (some q) r e (ground arith)

  -- `findOne` reads only, and returns a row or throws `not_found`.
  pub find_one-cases :
      (model user id : String) (inc : Bool) (s : World)
      → (find_one env model user id inc s ≡ (err (not_found model), s))
        ⊎ ((r : Row) × (find_one env model user id inc s ≡ (ok r, s)))
  unfolding find_one Action.find_first ◌>>=◌
  find_one-cases model user id inc s =
      go (env.prisma.find_first model (scope user (("id", equals (str id)) ∷ []) inc) s.db)
    where
      go :
          (o : Option Row)
          → (or_throw o (throw (not_found model)) s ≡ (err (not_found model), s))
            ⊎ ((r : Row) × (or_throw o (throw (not_found model)) s ≡ (ok r, s)))
      go none = inl refl
      go (some q) = inr (q, refl)

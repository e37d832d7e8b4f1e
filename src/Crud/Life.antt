-- ===== src/Crud/Life.antt =====
-- Soft deletion as a machine of three states: the contract of findOne, remove and restore of
-- common/crud/scoped-crud.service.ts.
pub mod Runs
use mathlib.Core.Bool.{false≢true}
use planner_api.Common.{
  String, ◌≡◌, refl, sym, ap, ◌∙◌, Bool, true, false, not, ◌&&◌, ◌||◌, Option, none, some, List, [],
  ◌∷◌, ◌==◌, if◌then◌else◌, Bool-cases, inl, inr, eq_iff, eq_refl, arith,
}
use planner_api.Store.Value.{Value, str, date, null, big, Row, get, id_of, is_nullish, spread, text}
use planner_api.Store.Query.{matches, equals, value_eq}
use planner_api.Store.Db.{Result, ok, err, not_found, Db, stored, store, defined, update_row}
use planner_api.Store.Effects.{stored-store}
use planner_api.Store.Action.{Action, World, pure, throw, continue, ◌>>=◌, ◌>>◌, Env, now}
use planner_api.Store.Action
use planner_api.Crud.{scope, find_one, or_throw, allocate, next}
use planner_api.Crud
use planner_api.Crud.Rows.{text_of_value_eq, find_one_lem}

-- What an id is to a user: nothing of theirs, a row, or a row that was deleted.
pub data Life : Type 0 where
  absent live deleted : Life

abbrev pub own : String → String → Row → Bool
own user id r = value_eq (get "userId" r) (str user) && value_eq (get "id" r) (str id)

abbrev pub standing : Row → Life
standing r = if is_nullish (get "deletedAt" r) then live else deleted

abbrev pub life : String → String → Option Row → Life
life user id none = absent
life user id (some r) = if own user id r then standing r else absent

pub data Op : Type 0 where
  find remove restore : Op

-- What each operation does to the state, and whether it succeeds.
abbrev pub step : Op → Life → Bool × Life
step find live = (true, live)
step find l = (false, l)
step remove live = (true, deleted)
step remove l = (false, l)
step restore absent = (false, absent)
step restore l = (true, live)

-- Whether `findOne` finds it, with deleted rows or without.
abbrev pub finds : Bool → Life → Bool
finds inc absent = false
finds inc live = true
finds inc deleted = inc

abbrev pub succeeded : {A : Type 0} → Result A → Bool
succeeded (ok a) = true
succeeded (err e) = false

-- The row that `findOne` finds under an id, by what is stored there.
abbrev pub seen : String → String → Bool → Option Row → Option Row
seen user id inc none = none
seen user id inc (some r) =
    if own user id r && (inc || is_nullish (get "deletedAt" r)) then some r else none

pub and_left : (a b : Bool) → (a && b) ≡ true → a ≡ true
and_left true b h = refl
and_left false b h = h

pub and_right : (a b : Bool) → (a && b) ≡ true → b ≡ true
and_right true b h = h
and_right false b h = cc

pub stored_now : (m id : String) (r : Row) (d : Db) → stored m id (store m id r d) ≡ some r
stored_now m id r d = ground (arith, stored-store m id m id r d, eq_iff m m, eq_iff id id)

pub both : {a b : Bool} {l m : Life} → (a ≡ b) × (l ≡ m) → ◌≡◌ {A = Bool × Life} (a, l) (b, m)
both (p, q) i = (p i, q i)

pub continue-pure : (r : Result Row × World) → continue r pure ≡ r
unfolding pure
continue-pure (ok a, s) = refl
continue-pure (err e, s) = refl

pub own-named : (user id : String) (r : Row) → own user id r ≡ true → id_of r ≡ id
own-named user id r h =
    text_of_value_eq (get "id" r) id (and_right (value_eq (get "userId" r) (str user)) _ h)

abbrev pub answered : Bool → List Bool × Life → List Bool × Life
answered a (answers, last) = (a ∷ answers, last)

-- The machine on a sequence of operations.
unfoldable pub run_machine : List Op → Life → List Bool × Life
run_machine [] l = ([], l)
run_machine (op ∷ ops) l =
    let (a, m) = step op l in let (answers, last) = run_machine ops m in (a ∷ answers, last)

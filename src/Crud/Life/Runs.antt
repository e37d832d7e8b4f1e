-- ===== src/Crud/Life/Runs.antt =====
-- The operations on one id, compared with the machine of soft deletion.
use mathlib.Core.Bool.{false≢true}
use planner_api.Common.{
  String, ◌≡◌, refl, sym, ap, ◌∙◌, Bool, true, false, ◌&&◌, ◌||◌, Option, none, some, List, [], ◌∷◌,
  ◌==◌, if◌then◌else◌, Bool-cases, inl, inr, eq_iff, arith,
}
use planner_api.Store.Value.{str, date, null, big, Row, get, id_of, is_nullish, spread, text}
use planner_api.Store.Query.{matches, equals, value_eq}
use planner_api.Store.Db.{Result, not_found, Db, stored, defined, keeps_links}
use planner_api.Store.Action.{Action, World, pure, throw, continue, ◌>>=◌, ◌>>◌, Env, now}
use planner_api.Store.Action
use planner_api.Crud.{scope, find_one, or_throw, allocate, next}
use planner_api.Crud
use planner_api.Crud.Rows.{find_one_lem}
use planner_api.Crud.Life.{
  own, standing, life, step, finds, succeeded, seen, and_left, stored_now, both, continue-pure,
  own-named, answered, run_machine, Life, absent, live, deleted, Op, find, remove, restore,
}

module _ (env : Env) (model user id : String) where
  abbrev pub perform : Op → Action Row
  perform find = find_one env model user id false
  perform remove = Crud.remove env model user id
  perform restore = Crud.restore env model user id

  abbrev pub life_in : World → Life
  life_in s = life user id (stored model id s.db)

  fits :
      (inc : Bool) (r : Row)
      → matches env.prisma.like (scope user (("id", equals (str id)) ∷ []) inc) r
        ≡ (own user id r && (inc || is_nullish (get "deletedAt" r)))
  unfolding matches scope
  fits true r = ground arith
  fits false r = ground arith

  find_first-seen :
      (inc : Bool) (d : Db)
      → env.prisma.find_first model (scope user (("id", equals (str id)) ∷ []) inc) d
        ≡ seen user id inc (stored model id d)
  find_first-seen inc d =
      go (env.prisma.find_first model (scope user (("id", equals (str id)) ∷ []) inc) d) refl
        (stored model id d) refl
    where
      go :
          (o : Option Row)
          → o ≡ env.prisma.find_first model (scope user (("id", equals (str id)) ∷ []) inc) d
          → (p : Option Row) → stored model id d ≡ p
          → o ≡ seen user id inc p
      go (some q) e p f =
          let (there, found) = find_one_lem env model user id inc d (some q) q e refl in
          let chosen =
            (env.prisma.find_first-some model (scope user (("id", equals (str id)) ∷ []) inc) d q
              (sym e)).1 in
          rw (sym f ∙ there) (rw (sym (fits inc q) ∙ chosen) refl)
      go none e none f = refl
      go none e (some r) f =
          elim (Bool-cases (own user id r && (inc || is_nullish (get "deletedAt" r)))) [
            | inr n ↦ rw n refl
            | inl y ↦
                let named = own-named user id r (and_left _ _ y) in
                let passed =
                  env.prisma.find_first-none model (scope user (("id", equals (str id)) ∷ []) inc) d
                    r (sym e) (rw named f) in
                absurd (false≢true (sym passed ∙ fits inc r ∙ y))
          ]

  -- `findOne` by what is stored.
  find_one-seen :
      (inc : Bool) (s : World)
      → find_one env model user id inc s
        ≡ or_throw (seen user id inc (stored model id s.db)) (throw (not_found model)) s
  unfolding find_one Action.find_first ◌>>=◌
  find_one-seen inc s = ap (λ o. or_throw o (throw (not_found model)) s) (find_first-seen inc s.db)

  -- A write that names neither the id nor the owner leaves a row of the user's, standing as written.
  life-update :
      (columns : Row) (s : World) (r : Row)
      → stored model id s.db ≡ some r
      → own user id r ≡ true
      → get "id" (spread r (defined columns)) ≡ get "id" r
      → get "userId" (spread r (defined columns)) ≡ get "userId" r
      → keeps_links model id columns ≡ true
      → (succeeded (Action.update env model id columns s).0 ≡ true)
        × (life_in (Action.update env model id columns s).1 ≡ standing (spread r (defined columns)))
  unfolding Action.update
  life-update columns s r there own_it same_id same_user links =
      let named : id_of (spread r (defined columns)) ≡ id =
        ap text same_id ∙ own-named user id r own_it in
      let kept : own user id (spread r (defined columns)) ≡ true =
        ap (λ v. value_eq v (str user) && value_eq (get "id" (spread r (defined columns))) (str id))
          same_user
        ∙ ap (λ v. value_eq (get "userId" r) (str user) && value_eq v (str id)) same_id
        ∙ own_it in
      let test : (id_of (spread r (defined columns)) == id) ≡ true = (eq_iff _ _).1 named in
      rw (env.prisma.update_lem model id columns s.db links) (
        rw there (
          rw test (
            refl,
            ap (life user id) (stored_now model id (spread r (defined columns)) s.db)
                ∙ rw kept refl,
          )))

  abbrev outcome : Result Row × World → Bool × Life
  outcome (a, t) = (succeeded a, life_in t)

  -- The operations begin with a `findOne`: what it does not find it refuses, and nothing changes.
  find_one-outcome :
      (inc : Bool) (k : Row → Action Row) (after : Life) (s : World)
      → ((r : Row)
          → stored model id s.db ≡ some r
          → own user id r ≡ true
          → finds inc (standing r) ≡ true
          → outcome (k r s) ≡ (true, after))
      → outcome ((find_one env model user id inc >>= k) s)
        ≡ (if finds inc (life_in s) then (true, after) else (false, life_in s))
  unfolding ◌>>=◌ pure throw
  find_one-outcome inc k after s wrote = go (stored model id s.db) refl
    where
      from : (o : Option Row) → Bool × Life
      from o = outcome (continue (or_throw (seen user id inc o) (throw (not_found model)) s) k)

      is_live : (r : Row) → is_nullish (get "deletedAt" r) ≡ true → finds inc (standing r) ≡ true
      is_live r l = ap (λ b. finds inc (if b then live else deleted)) l

      is_gone :
          (r : Row)
          → inc ≡ true
          → is_nullish (get "deletedAt" r) ≡ false
          → finds inc (standing r) ≡ true
      is_gone r t g = ap (λ b. finds inc (if b then live else deleted)) g ∙ t

      by_row :
          (r : Row)
          → stored model id s.db ≡ some r
          → from (some r)
            ≡ (if finds inc (life user id (some r)) then (true, after) else (false, life_in s))
      by_row r e = elim (Bool-cases (own user id r)) [
        | inr n ↦ rw n refl
        | inl y ↦ elim (Bool-cases (is_nullish (get "deletedAt" r))) [
          | inl l ↦ rw y (
              rw l (elim (Bool-cases inc) [
                | inl t ↦ rw t (wrote r e y (is_live r l))
                | inr f ↦ rw f (wrote r e y (is_live r l))
              ]))
          | inr g ↦ rw y (
              rw g (elim (Bool-cases inc) [
                | inl t ↦ rw t (wrote r e y (is_gone r t g))
                | inr f ↦ rw f refl
              ]))
        ]
      ]

      answer : Option Row → Bool × Life
      answer o = if finds inc (life user id o) then (true, after) else (false, life_in s)

      go :
          (o : Option Row)
          → stored model id s.db ≡ o
          → outcome (continue (find_one env model user id inc s) k) ≡ answer (stored model id s.db)
      go none e =
          ap (λ r. outcome (continue r k)) (find_one-seen inc s) ∙ ap from e ∙ sym (ap answer e)
      go (some r) e =
          ap (λ r. outcome (continue r k)) (find_one-seen inc s)
          ∙ ap from e
          ∙ by_row r e
          ∙ sym (ap answer e)

  -- An operation on a world does what the machine does on the state that the world is in.
  perform-step : (op : Op) (s : World) → outcome (perform op s) ≡ step op (life_in s)
  unfolding Crud.remove Crud.restore next allocate now ◌>>=◌ pure
  perform-step find s =
      ap outcome (sym (continue-pure (find_one env model user id false s)))
      ∙ find_one-outcome false pure live s (λ r e y f. found r e y f)
      ∙ by_life (life_in s)
    where
      only_live : (r : Row) → finds false (standing r) ≡ true → standing r ≡ live
      only_live r f = elim (Bool-cases (is_nullish (get "deletedAt" r))) [
        | inl l ↦ rw l refl
        | inr g ↦
            absurd (false≢true (ap (λ b. finds false (if b then live else deleted)) (sym g) ∙ f))
      ]

      found :
          (r : Row)
          → stored model id s.db ≡ some r
          → own user id r ≡ true
          → finds false (standing r) ≡ true
          → outcome (pure r s) ≡ (true, live)
      found r e y f = both (refl, ap (life user id) e ∙ rw y (only_live r f))

      by_life : (l : Life) → (if finds false l then (true, live) else (false, l)) ≡ step find l
      by_life absent = refl
      by_life live = refl
      by_life deleted = refl
  perform-step remove s =
      find_one-outcome false
        (λ _. do
          seq ← next user
          first ← now env
          second ← now env
          Action.update env model id
              (("deletedAt", date first) ∷ ("updatedAt", date second) ∷ ("seq", big seq) ∷ []))
        deleted s (λ r e y f. both (life-update _ _ r e y refl refl refl))
      ∙ by_life (life_in s)
    where
      by_life : (l : Life) → (if finds false l then (true, deleted) else (false, l)) ≡ step remove l
      by_life absent = refl
      by_life live = refl
      by_life deleted = refl
  perform-step restore s =
      find_one-outcome true
        (λ _. do
          seq ← next user
          t ← now env
          Action.update env model id
              (("deletedAt", null) ∷ ("updatedAt", date t) ∷ ("seq", big seq) ∷ []))
        live s (λ r e y f. both (life-update _ _ r e y refl refl refl))
      ∙ by_life (life_in s)
    where
      by_life : (l : Life) → (if finds true l then (true, live) else (false, l)) ≡ step restore l
      by_life absent = refl
      by_life live = refl
      by_life deleted = refl

  -- What the operations answer, one after the other, and the state they leave.
  unfoldable pub run : List Op → World → List Bool × Life
  run [] s = ([], life_in s)
  run (op ∷ ops) s =
      let (a, t) = perform op s in let (answers, last) = run ops t in (succeeded a ∷ answers, last)

  -- Whatever row has the id, and whatever finds, removals and restorations follow one another: they
  -- answer, and leave the row, as the machine of the three states says.
  pub run_refines : (ops : List Op) (s : World) → run ops s ≡ run_machine ops (life_in s)
  unfolding run run_machine
  run_refines [] s = refl
  run_refines (op ∷ ops) s =
      ap (answered (succeeded (perform op s).0)) (run_refines ops (perform op s).1)
      ∙ ap (λ q. answered q.0 (run_machine ops q.1)) (perform-step op s)

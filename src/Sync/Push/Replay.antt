-- ===== src/Sync/Push/Replay.antt =====
-- A change that a push has dealt with is refused when it comes again.
use planner_api.Crud.Rows.{str_of_value_eq}
use mathlib.Core.Bool.{false≢true}
use planner_api.Common.{
  ℕ, ◌+◌, String, ◌≡◌, refl, sym, ◌∙◌, true, false, Option, none, some, List, [], ◌∷◌, ◌++◌, ◌==◌,
  eq_iff, arith, Bool-cases, Option-cases, inl, inr, ◌⊎◌, eq_refl,
}
use planner_api.Store.Value.{
  str, date, big, null, Row, get, has, get-append, owner, id_of, spread, instant,
}
use planner_api.Store.Query.{equals, matches}
use planner_api.Store.Db.{
  Result, ok, err, Db, stored, defined, insert_row, update_row, refuse_taken, keeps_links,
}
use planner_api.Store.Effects.{stored-store, keeps_links-has}
use planner_api.Store.Action.{Action, World, pure, throw, continue, ◌>>=◌, ◌>>◌, Env, now, lift}
use planner_api.Store.Action
use planner_api.Sync.Registry.{TableSchema, get_table, coerce}
use planner_api.Sync.Registry.Checks.{coerce-IsChecked}
use planner_api.Sync.Push.{
  SyncOp, upsert, delete, SyncChange, Progress, Reason, refused, is_stale, stale, not_owned, lift,
  columns_of, valid_date, apply_upsert, apply_op, decide, apply_change, counted,
}
use planner_api.Sync.Push.Steps.{find_by_id, names_none}

insert-stored :
    (m : String) (r w : Row) (d : Db)
    → (insert_row m r d).0 ≡ ok w
    → stored m (id_of r) (insert_row m r d).1 ≡ some r
insert-stored m r w d h = go (stored m (id_of r) d) h
  where
    go :
        (o : Option Row)
        → (refuse_taken o m r d).0 ≡ ok w
        → stored m (id_of r) (refuse_taken o m r d).1 ≡ some r
    go none e =
        ground (arith, stored-store m (id_of r) m (id_of r) r d, eq_refl m, eq_refl (id_of r))
    go (some q) e = cc

update_row-stored :
    (m id : String) (columns r : Row) (d : Db)
    → stored m id d ≡ some r
    → id_of (spread r (defined columns)) ≡ id
    → stored m id (update_row m id columns d).1 ≡ some (spread r (defined columns))
update_row-stored m id columns r d old named = rw old (
    rw (same_id) (
      ground (arith, stored-store m id m id (spread r (defined columns)) d, eq_refl m, eq_refl id)))
  where
    same_id : (id_of (spread r (defined columns)) == id) ≡ true
    same_id = (eq_iff (id_of (spread r (defined columns))) id).1 named

module _ (env : Env) where
  -- A row that is stored under its id is found by its id.
  found_by_id :
      (m id : String) (d : Db) (r : Row)
      → stored m id d ≡ some r
      → get "id" r ≡ str id
      → env.prisma.find_first m (("id", equals (str id)) ∷ []) d ≡ some r
  unfolding matches
  found_by_id m id d r h named =
      elim (Option-cases (env.prisma.find_first m (("id", equals (str id)) ∷ []) d)) [
        | inl e ↦
            let misses =
              env.prisma.find_first-none m (("id", equals (str id)) ∷ []) d r e (rw named h) in
            absurd (false≢true (sym misses ∙ fits))
        | inr (q, e) ↦ e ∙ (sym (find_by_id env m id d q e).0 ∙ h)
      ]
    where
      fits : matches env.prisma.like (("id", equals (str id)) ∷ []) r ≡ true
      fits = rw (named, eq_refl id)

  found_id :
      (m id : String) (d : Db) (r : Row)
      → env.prisma.find_first m (("id", equals (str id)) ∷ []) d ≡ some r
      → get "id" r ≡ str id
  unfolding matches
  found_id m id d r e =
      let (there, fits) = env.prisma.find_first-some m (("id", equals (str id)) ∷ []) d r e in
      str_of_value_eq (get "id" r) id (ground arith)

  create-stored :
      (m : String) (columns w : Row) (s : World)
      → (Action.create env m columns s).0 ≡ ok w
      → stored m
          (id_of (spread (env.prisma.defaults m) (defined columns)))
          (Action.create env m columns s).1.db
        ≡ some (spread (env.prisma.defaults m) (defined columns))
  unfolding Action.create
  create-stored m columns w s h = rw (env.prisma.create_lem m columns s.db) (
      insert-stored m (spread (env.prisma.defaults m) (defined columns)) w s.db
        (rw (env.prisma.create_lem m columns s.db) at h))

  update-stored :
      (m id : String) (columns r : Row) (s : World)
      → stored m id s.db ≡ some r
      → id_of (spread r (defined columns)) ≡ id
      → keeps_links m id columns ≡ true
      → stored m id (Action.update env m id columns s).1.db ≡ some (spread r (defined columns))
  unfolding Action.update
  update-stored m id columns r s old named same =
      rw (env.prisma.update_lem m id columns s.db same)
        (update_row-stored m id columns r s.db old named)

-- Started at `s`, the action ends in a world that meets `P`, if it returns.
record Leaves {A : Type 0} (s : World) (P : World → Type 0) (m : Action A) : Type 0 where
  at : (a : A) → (m s).0 ≡ ok a → P (m s).1

module _ {A : Type 0} (s : World) (P : World → Type 0) where
  Leaves-pure : (a : A) → P s → Leaves s P (pure a)
  unfolding pure
  Leaves-pure a h = record { at = λ b e. h }

  Leaves-lift :
      {B : Type 0} (r : Result B) (f : B → Action A)
      → ((b : B) → r ≡ ok b → Leaves s P (f b))
      → Leaves s P (lift r >>= f)
  unfolding ◌>>=◌
  Leaves-lift (ok b) f h = h b refl
  Leaves-lift (err e) f h = record { at = λ a k. cc }

  Leaves-valid_date :
      (o : Option ℕ) (f : ℕ → Action A)
      → ((t : ℕ) → o ≡ some t → Leaves s P (f t))
      → Leaves s P (valid_date o >>= f)
  unfolding ◌>>=◌
  Leaves-valid_date (some t) f h = h t refl
  Leaves-valid_date none f h = record { at = λ a k. cc }

  Leaves-bind :
      {B : Type 0} (m : Action B) (f : B → Action A)
      → ((b : B) → (m s).0 ≡ ok b → P (m s).1)
      → ((b : B) (t : World) → P t → Leaves t P (f b))
      → Leaves s P (m >>= f)
  unfolding ◌>>=◌
  Leaves-bind {B} m f km kf = record { at = go (m s) km }
    where
      go :
          (r : Result B × World)
          → ((b : B) → r.0 ≡ ok b → P r.1)
          → (a : A) → (continue r f).0 ≡ ok a
          → P (continue r f).1
      go (ok b, t) k a e = (kf b t (k b refl)).at a e
      go (err x, t) k a e = cc

module _ (env : Env) (tables : List TableSchema) (user : String) (c : SyncChange) where
  -- The stored row of the change belongs to somebody else, or is not older than the change.
  record IsSettled (t : TableSchema) (s : World) : Type 0 where
    row : Row
    found :
        env.prisma.find_first t.definition.delegate (("id", equals (str c.id)) ∷ []) s.db ≡ some row
    verdict :
        ((owner row == user) ≡ false)
        ⊎ (is_stale (instant (get "updatedAt" row)) (env.new_date (str c.updated_at)) ≡ true)

  -- A settled change is refused, and changes nothing.
  settled-refused :
      (t : TableSchema) (q : Progress) (s : World)
      → get_table tables c.table ≡ ok t
      → IsSettled t s
      → (r : Reason) × (at : Option ℕ) × (apply_change env tables user c q s
          ≡ (ok (refused c r at q), s))
  unfolding apply_change ◌>>=◌ Action.find_first
  settled-refused t q s known h = elim h.verdict [
    | inl e ↦ (not_owned, none, rw (known, h.found, e))
    | inr f ↦ elim (Bool-cases (owner h.row == user)) [
      | inr e ↦ (not_owned, none, rw (known, h.found, e))
      | inl e ↦ (stale, some (instant (get "updatedAt" h.row)), rw (known, h.found, e, f))
    ]
  ]

  written-IsSettled :
      (t : TableSchema) (r : Row) (s : World) (at : ℕ)
      → stored t.definition.delegate c.id s.db ≡ some r
      → get "id" r ≡ str c.id
      → get "updatedAt" r ≡ date at
      → env.new_date (str c.updated_at) ≡ some at
      → IsSettled t s
  written-IsSettled t r s at there named stamped e = record {
    row = r;
    found = found_by_id env t.definition.delegate c.id s.db r there named;
    verdict = inr (rw (stamped, e) (ground arith));
  }

  create-Leaves :
      (t : TableSchema) (columns : Row) (at n : ℕ) (p : Progress) (s : World)
      → env.new_date (str c.updated_at) ≡ some at
      → Leaves s (IsSettled t) (
          Action.create env t.definition.delegate (
            spread columns (
              ("id", str c.id)
              ∷ ("userId", str user)
              ∷ ("updatedAt", date at)
              ∷ ("seq", big n)
              ∷ []))
          >>= λ _. counted env tables user p n)
  create-Leaves t columns at n p s e =
      Leaves-bind s (IsSettled t) _ _
        (λ w k.
          written-IsSettled t _ _ at (create-stored env t.definition.delegate _ w s k) refl refl e)
        (λ w u h. Leaves-pure u (IsSettled t) _ h)

  update-Leaves :
      (t : TableSchema) (columns r : Row) (at n : ℕ) (p : Progress) (s : World)
      → env.new_date (str c.updated_at) ≡ some at
      → stored t.definition.delegate c.id s.db ≡ some r
      → get "id" r ≡ str c.id
      → has "id" (defined columns) ≡ false
      → Leaves s (IsSettled t) (
          Action.update env t.definition.delegate c.id
            (spread columns (("deletedAt", null) ∷ ("updatedAt", date at) ∷ ("seq", big n) ∷ []))
          >>= λ _. counted env tables user p n)
  update-Leaves t columns r at n p s e there named free =
      Leaves-bind s (IsSettled t) _ _
        (λ w k.
          written-IsSettled t _ _ at
            (update-stored env t.definition.delegate c.id _ r s there (rw id_kept refl) (
              keeps_links-has t.definition.delegate c.id
                (spread columns
                  (("deletedAt", null) ∷ ("updatedAt", date at) ∷ ("seq", big n) ∷ []))
                free))
            id_kept refl e)
        (λ w u h. Leaves-pure u (IsSettled t) _ h)
    where
      id_kept : get "id" (defined columns ++ r) ≡ str c.id
      id_kept = get-append "id" (defined columns) r ∙ rw free named

  upsert-Leaves :
      (t : TableSchema) (o : Option Row) (p : Progress) (s : World)
      → env.prisma.find_first t.definition.delegate (("id", equals (str c.id)) ∷ []) s.db ≡ o
      → Leaves s (IsSettled t) (apply_upsert env tables user t c o p)
  unfolding apply_upsert
  upsert-Leaves t none p s f =
      Leaves-lift s (IsSettled t) (coerce env.new_date t (columns_of c) true) _ λ columns k.
        Leaves-valid_date s (IsSettled t) (env.new_date (str c.updated_at)) _
          λ at e. create-Leaves t columns at (p.seq + 1) p s e
  upsert-Leaves t (some r) p s f =
      Leaves-lift s (IsSettled t) (coerce env.new_date t (columns_of c) false) _ λ columns k.
        Leaves-valid_date s (IsSettled t) (env.new_date (str c.updated_at)) _ λ at e.
          update-Leaves t columns r at (p.seq + 1) p s e
            (find_by_id env t.definition.delegate c.id s.db r f).0
            (found_id env t.definition.delegate c.id s.db r f)
            (names_none "id" t columns refl
              (coerce-IsChecked env.new_date t (columns_of c) false columns k).1)

  op-Leaves :
      (x : SyncOp) (t : TableSchema) (o : Option Row) (p : Progress) (s : World)
      → x ≡ upsert
      → env.prisma.find_first t.definition.delegate (("id", equals (str c.id)) ∷ []) s.db ≡ o
      → Leaves s (IsSettled t) (apply_op env tables user x t c o p)
  unfolding apply_op
  op-Leaves upsert t o p s op f = upsert-Leaves t o p s f
  op-Leaves delete t o p s op f = cc

  decide-Leaves :
      (t : TableSchema) (o : Option Row) (p : Progress) (s : World)
      → c.op ≡ upsert
      → env.prisma.find_first t.definition.delegate (("id", equals (str c.id)) ∷ []) s.db ≡ o
      → Leaves s (IsSettled t) (decide env tables user t c o p)
  unfolding decide
  decide-Leaves t none p s op f = op-Leaves c.op t none p s op f
  decide-Leaves t (some r) p s op f = elim (Bool-cases (owner r == user)) [
    | inr e ↦ rw e (Leaves-pure s (IsSettled t) _ (record { row = r; found = f; verdict = inl e }))
    | inl e ↦
        rw e
          (elim (Bool-cases
            (is_stale (instant (get "updatedAt" r)) (env.new_date (str c.updated_at)))) [
              | inl late ↦ rw late (
                  Leaves-pure s (IsSettled t) _ (record { row = r; found = f; verdict = inr late }))
              | inr late ↦ rw late (op-Leaves c.op t (some r) p s op f)
            ])
  ]

  lift-settles :
      (g : Result TableSchema) (f : TableSchema → Action Progress) (p' : Progress) (s : World)
      → ((t : TableSchema) → Leaves s (IsSettled t) (f t))
      → ((lift g >>= f) s).0 ≡ ok p'
      → (t : TableSchema) × (g ≡ ok t) × IsSettled t ((lift g >>= f) s).1
  unfolding ◌>>=◌
  lift-settles (ok t) f p' s h e = (t, refl, (h t).at p' e)
  lift-settles (err x) f p' s h e = cc

  read-Leaves :
      (t : TableSchema) (p : Progress) (s : World)
      → c.op ≡ upsert
      → Leaves s (IsSettled t) (
          Action.find_first env t.definition.delegate (("id", equals (str c.id)) ∷ []) >>= λ o.
          decide env tables user t c o p)
  unfolding ◌>>=◌ Action.find_first
  read-Leaves t p s op = record {
    at =
        (decide-Leaves t
          (env.prisma.find_first t.definition.delegate (("id", equals (str c.id)) ∷ []) s.db) p s op
          refl).at;
  }

  -- Once the loop has been through an upsert, whatever came of it, the same change is refused at
  -- its next appearance and nothing is written: an upsert that is sent twice is applied once.
  pub apply_change-replay :
      (p q p' : Progress) (s : World)
      → c.op ≡ upsert
      → (apply_change env tables user c p s).0 ≡ ok p'
      → (r : Reason) × (at : Option ℕ) × (apply_change env tables user c q
            (apply_change env tables user c p s).1
          ≡ (ok (refused c r at q), (apply_change env tables user c p s).1))
  unfolding apply_change
  apply_change-replay p q p' s op h =
      let (t, known, settled) =
        lift-settles (get_table tables c.table) _ p' s (λ t. read-Leaves t p s op) h in
      settled-refused t q _ known settled

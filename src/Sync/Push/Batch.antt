-- ===== src/Sync/Push/Batch.antt =====
-- What a whole push comes to: all or nothing, and how its changes are counted.
use planner_api.Common.{
  ℕ, ◌+◌, ◌≤◌, String, ◌≡◌, refl, ap, ◌∙◌, Bool, true, false, Option, none, some, List, [], ◌∷◌,
  ◌==◌, arith, length, length-append, Bool-cases, inl, inr, suc,
}
use planner_api.Store.Value.{str, Row, get, owner, instant}
use planner_api.Store.Db.{Exception, Result, ok, err}
use planner_api.Store.Action.{Action, World, ◌>>=◌, Env, now, counter, lift}
use planner_api.Store.Outcome.{
  Ensures, Ensures-pure, Ensures-bind, Ensures-bind_post, IsQuiet, IsQuiet-pure, IsQuiet-bind,
  IsQuiet-now, IsAtomic, transaction-bind, transaction-IsAtomic,
}
use planner_api.Crud.{allocate}
use planner_api.Sync.Registry.{TableSchema, get_table, coerce}
use planner_api.Sync.Push.{
  SyncOp, upsert, delete, SyncChange, SyncPush, SyncPushResult, Progress, refused, is_stale, stale,
  not_owned, columns_of, valid_date, order_changes, sort_changes, insert_change, apply_op, decide,
  apply_change, apply_all, push_batch, touch_client, push, insert_result, drop_orders, drop_result,
}

-- What a loop over `n` changes does to the counts.
pub record Counts (n : ℕ) (p q : Progress) : Type 0 where
  pub all_counted : q.seq + length q.conflicts ≡ p.seq + length p.conflicts + n
  pub applied_counted : q.applied + p.seq ≤ q.seq + p.applied
  pub applied_grows : p.applied ≤ q.applied

-- If the action returns, it returns counts that are right.
abbrev CountsOk : ℕ → Progress → Result Progress → Type 0
CountsOk n p (ok q) = Counts n p q
CountsOk n p (err e) = Unit

module _ (env : Env) (tables : List TableSchema) (user : String) where
  counted_step : (p : Progress) → Counts 1 p (record p { seq = p.seq + 1; applied = p.applied + 1 })
  counted_step p = omega arith

  refused_step :
      (c : SyncChange) (p : Progress) (r : _) (at : Option ℕ) → Counts 1 p (refused c r at p)
  refused_step c p r at = record {
    all_counted = omega (arith, length-append {0} p.conflicts);
    applied_counted = omega arith;
    applied_grows = omega arith;
  }

  apply_op-Counts :
      (op : SyncOp) (t : TableSchema) (c : SyncChange) (o : Option Row) (p : Progress)
      → Ensures (Counts 1 p) (apply_op env tables user op t c o p)
  unfolding apply_op
  apply_op-Counts delete t c none p = Ensures-pure _ (omega arith)
  apply_op-Counts delete t c (some r) p = Ensures-bind (now env) _ λ d.
      Ensures-bind (valid_date (env.new_date (str c.updated_at))) _
        λ at. Ensures-bind _ _ λ w. Ensures-pure _ (counted_step p)
  apply_op-Counts upsert t c none p =
      Ensures-bind (lift (coerce env.new_date t (columns_of c) true)) _ λ columns.
        Ensures-bind (valid_date (env.new_date (str c.updated_at))) _
          λ at. Ensures-bind _ _ λ w. Ensures-pure _ (counted_step p)
  apply_op-Counts upsert t c (some r) p =
      Ensures-bind (lift (coerce env.new_date t (columns_of c) false)) _ λ columns.
        Ensures-bind (valid_date (env.new_date (str c.updated_at))) _
          λ at. Ensures-bind _ _ λ w. Ensures-pure _ (counted_step p)

  decide-Counts :
      (t : TableSchema) (c : SyncChange) (o : Option Row) (p : Progress)
      → Ensures (Counts 1 p) (decide env tables user t c o p)
  unfolding decide
  decide-Counts t c none p = apply_op-Counts c.op t c none p
  decide-Counts t c (some r) p = elim (Bool-cases (owner r == user)) [
    | inr e ↦ rw e (Ensures-pure _ (refused_step c p not_owned none))
    | inl e ↦
        rw e
          (elim (Bool-cases
            (is_stale (instant (get "updatedAt" r)) (env.new_date (str c.updated_at)))) [
              | inl f ↦
                  rw f
                    (Ensures-pure _ (refused_step c p stale (some (instant (get "updatedAt" r)))))
              | inr f ↦ rw f (apply_op-Counts c.op t c (some r) p)
            ])
  ]

  apply_change-Counts :
      (c : SyncChange) (p : Progress) → Ensures (Counts 1 p) (apply_change env tables user c p)
  unfolding apply_change
  apply_change-Counts c p =
      Ensures-bind (lift (get_table tables c.table)) _
        λ t. Ensures-bind _ _ λ o. decide-Counts t c o p

  apply_all-Counts :
      (cs : List SyncChange) (p : Progress)
      → Ensures (Counts (length cs) p) (apply_all env tables user cs p)
  unfolding apply_all
  apply_all-Counts [] p = Ensures-pure p (omega arith)
  apply_all-Counts (c ∷ cs) p =
      Ensures-bind_post (Counts 1 p) (apply_change env tables user c p) _ (apply_change-Counts c p)
        λ q h. record {
          at = λ s a e.
              let k : Counts (length cs) q a = (apply_all-Counts cs q).at s a e in omega arith;
        }

insert_change-length :
    (le : String → String → Bool) (a : ℕ × SyncChange) (l : List (ℕ × SyncChange))
    → length (insert_change le a l) ≡ length l + 1
unfolding insert_change
insert_change-length le a [] = omega arith
insert_change-length le a (b ∷ l) = ground (arith, insert_change-length le a l)

abbrev LengthIs : ℕ → Result (List (ℕ × SyncChange)) → Type 0
LengthIs n (ok l) = length l ≡ n
LengthIs n (err e) = Unit

sort_changes-length :
    (le : String → String → Bool) (tables : List TableSchema) (cs : List SyncChange)
    → LengthIs (length cs) (sort_changes le tables cs)
unfolding sort_changes
sort_changes-length le tables [] = refl
sort_changes-length le tables (c ∷ cs) =
    go (get_table tables c.table) (sort_changes le tables cs) (sort_changes-length le tables cs)
  where
    go :
        (t : Result TableSchema) (r : Result (List (ℕ × SyncChange)))
        → LengthIs (length cs) r
        → LengthIs (suc (length cs)) (insert_result le c t r)
    go (err e) r h = tt
    go (ok t) (err e) h = tt
    go (ok t) (ok l) h = omega (arith, insert_change-length le (t.definition.order, c) l)

drop_orders-length :
    (le : String → String → Bool) (l : List (ℕ × SyncChange)) → length (drop_orders le l) ≡ length l
drop_orders-length le [] = refl
drop_orders-length le ((n, c) ∷ l) = ap suc (drop_orders-length le l)

order_changes-length :
    (le : String → String → Bool) (tables : List TableSchema) (cs ordered : List SyncChange)
    → order_changes le tables cs ≡ ok ordered
    → length ordered ≡ length cs
unfolding order_changes
order_changes-length le tables [] ordered h = let same : [] ≡ ordered = ground arith in rw (← same)
order_changes-length le tables (c ∷ []) ordered h =
    let same : c ∷ [] ≡ ordered = ground arith in rw (← same)
order_changes-length le tables (c ∷ b ∷ cs) ordered h =
    go (sort_changes le tables (c ∷ b ∷ cs)) (sort_changes-length le tables (c ∷ b ∷ cs)) h
  where
    go :
        (r : Result (List (ℕ × SyncChange)))
        → LengthIs (length (c ∷ b ∷ cs)) r
        → drop_result le r ≡ ok ordered
        → length ordered ≡ length (c ∷ b ∷ cs)
    go (err e) k f = cc
    go (ok l) k f =
        let same : drop_orders le l ≡ ordered = ground arith in
        rw (← same) (drop_orders-length le l ∙ k)

module _ {A B : Type 0} where
  lift-bind :
      (r : Result A) (f : A → Action B) (s : World) (b : B)
      → ((lift r >>= f) s).0 ≡ ok b
      → (a : A) × (r ≡ ok a) × ((f a s).0 ≡ ok b)
  unfolding ◌>>=◌
  lift-bind (ok a) f s b h = (a, refl, h)
  lift-bind (err e) f s b h = cc

IsQuiet-touch_client :
    (env : Env) (user device : String) (changed created : Row)
    → IsQuiet (touch_client env user device changed created)
unfolding touch_client
IsQuiet-touch_client env user device changed created = record { at = λ s e h. cc }

module _ {A B : Type 0} where
  lift-IsAtomic :
      (r : Result A) (f : A → Action B) → ((a : A) → IsAtomic (f a)) → IsAtomic (lift r >>= f)
  unfolding ◌>>=◌
  lift-IsAtomic (ok a) f h = h a
  lift-IsAtomic (err e) f h = record { at = λ s x k. refl }

-- The counts that a push reports are right for `n` changes and a counter that stood at `base`.
pub record IsCounted (n base : ℕ) (r : SyncPushResult) : Type 0 where
  pub all_reported : r.applied + r.skipped ≡ n
  pub conflicts_apart : r.applied + length r.conflicts ≤ n
  pub cursor_counted : r.cursor + length r.conflicts ≡ base + n

module _ (env : Env) (tables : List TableSchema) (locale_le : String → String → Bool)
    (user : String) where
  push_batch-Counts :
      (cs : List SyncChange) (s : World) (p : Progress)
      → (push_batch env tables user cs s).0 ≡ ok p
      → (p.seq + length p.conflicts ≡ counter (s.db.last_seq user) + length cs)
        × (p.applied + counter (s.db.last_seq user) ≤ p.seq)
  unfolding push_batch allocate ◌>>=◌
  push_batch-Counts cs s p e =
      let counts : Counts (length cs)
          (record { seq = counter (s.db.last_seq user); applied = 0; conflicts = [] }) p =
        (apply_all-Counts env tables user cs _).at _ p e in
      (omega arith, omega arith)

  -- A push that succeeds reports every change as applied or skipped, no applied one as a conflict,
  -- and a cursor that is past the counter by one for each change without a conflict.
  pub push-IsCounted :
      (dto : SyncPush) (s : World) (r : SyncPushResult)
      → (push env tables locale_le user dto s).0 ≡ ok r
      → IsCounted (length dto.changes) (counter (s.db.last_seq user)) r
  unfolding push ◌>>=◌ now touch_client
  push-IsCounted dto s r h =
      let (ordered, o, h') = lift-bind (order_changes locale_le tables dto.changes) _ s r h in
      let (p, t, b, tail) = transaction-bind (push_batch env tables user ordered) _ s r h' in
      let same = order_changes-length locale_le tables dto.changes ordered o in
      let counts = push_batch-Counts ordered s p b in ground arith

  push-IsAtomic : (dto : SyncPush) → IsAtomic (push env tables locale_le user dto)
  unfolding push
  push-IsAtomic dto = lift-IsAtomic (order_changes locale_le tables dto.changes) _ λ ordered.
      transaction-IsAtomic (push_batch env tables user ordered) _ λ p.
        IsQuiet-bind (now env) _ (IsQuiet-now env) λ t.
          IsQuiet-bind _ _ (IsQuiet-touch_client env user dto.device_id _ _) λ u. IsQuiet-pure _

  -- A push that fails leaves the whole database as it was.
  pub push_atomic :
      (dto : SyncPush) (s : World) (e : Exception)
      → (push env tables locale_le user dto s).0 ≡ err e
      → (push env tables locale_le user dto s).1.db ≡ s.db
  push_atomic dto = (push-IsAtomic dto).at

-- ===== src/Users/Account/Moving.antt =====
-- Where the rows of a guest go when its account is merged into another.
use planner_api.Common.{
  ℕ, ◌+◌, ◌<◌, ◌≤◌, String, ◌≡◌, ◌≢◌, refl, sym, ap, ◌∙◌, false, Option, some, [], ◌∷◌, ◌==◌,
  eq_iff, arith, Bool-cases, inl, inr,
}
use planner_api.Store.Value.{Row, str, big, get, id_of, seq_of, text}
use planner_api.Store.Db.{ok, Db, stored, store, update_row}
use planner_api.Store.Effects.{stored-store}
use planner_api.Store.Action.{counter}

-- The same row, but for its owner and its number.
abbrev pub Agrees : Row → Row → Type 0
Agrees r q = (k : String) → ("userId" == k) ≡ false → ("seq" == k) ≡ false → get k q ≡ get k r

-- The row with a new owner and a number above `base`.
pub record IsMoved (target : String) (base : ℕ) (r q : Row) : Type 0 where
  pub owned : get "userId" q ≡ str target
  pub fresh : base < seq_of q
  pub agrees : Agrees r q

-- There is a row, of which `P` holds.
abbrev pub Has : (Row → Type 0) → Option Row → Type 0
Has P o = (q : Row) × (o ≡ some q) × P q

pub some_same : {a b : Row} → some a ≡ some b → a ≡ b
some_same p = cc

abbrev pub moved_columns : String → ℕ → Row
moved_columns target seq = ("userId", str target) ∷ ("seq", big (seq + 1)) ∷ []

pub update_row-moved :
    (model target : String) (seq : ℕ) (r q : Row) (d : Db)
    → stored model (id_of r) d ≡ some q
    → Agrees r q
    → update_row model (id_of r) (moved_columns target seq) d ≡ (
      ok (("userId", str target) ∷ ("seq", big (seq + 1)) ∷ q),
      store model (id_of r) (("userId", str target) ∷ ("seq", big (seq + 1)) ∷ q) d,
    )
update_row-moved model target seq r q d there same =
    rw there (ground (arith, ap text (same "id" refl refl), eq_iff (id_of q) (id_of r)))

module _ (target : String) (base : ℕ) where
  -- What moving leaves as it is.
  pub record Steps (d e : Db) : Type 0 where
    pub agrees :
        (t j : String) (r : Row) → Has (Agrees r) (stored t j d) → Has (Agrees r) (stored t j e)
    pub moved :
        (t j : String) (r : Row)
        → Has (IsMoved target base r) (stored t j d)
        → Has (IsMoved target base r) (stored t j e)
    pub counts : counter (d.last_seq target) ≤ counter (e.last_seq target)
    pub old :
        (t j : String) (q : Row)
        → stored t j e ≡ some q
        → get "userId" q ≢ str target
        → stored t j d ≡ some q

  pub Steps-refl : (d : Db) → Steps d d
  Steps-refl d = record {
    agrees = λ t j r h. h;
    moved = λ t j r h. h;
    counts = omega arith;
    old = λ t j q h n. h;
  }

  pub Steps-trans : (d e f : Db) → Steps d e → Steps e f → Steps d f
  Steps-trans d e f a b = record {
    agrees = λ t j r h. b.agrees t j r (a.agrees t j r h);
    moved = λ t j r h. b.moved t j r (a.moved t j r h);
    counts = omega (arith, a.counts, b.counts);
    old = λ t j q h n. a.old t j q (b.old t j q h n) n;
  }

  -- What was there before a write is there after it, or has been moved.
  written :
      (P : Row → Type 0) (model j t id : String) (p new : Row) (d : Db)
      → stored model id d ≡ some p
      → (P p → P new)
      → Has P (stored t j d)
      → Has P (stored t j (store model id new d))
  written P model j t id p new d there f (q, e, h) = elim (Bool-cases (model == t)) [
    | inl same ↦ elim (Bool-cases (id == j)) [
      | inl here ↦ (
        new,
        ground (arith, stored-store model id t j new d, same, here),
        f (
            let here_is : stored t j d ≡ some p =
              rw (← (eq_iff model t).0 same) (rw (← (eq_iff id j).0 here) there) in
            let found : q ≡ p = some_same (sym e ∙ here_is) in rw (← found) h),
      )
      | inr there' ↦ (q, ground (arith, stored-store model id t j new d, same, there', e), h)
    ]
    | inr apart ↦ (q, ground (arith, stored-store model id t j new d, apart, e), h)
  ]

  -- What is not the target's after a write to one of its rows was there before.
  unwritten :
      (model id t j : String) (p new : Row) (d : Db)
      → get "userId" new ≡ str target
      → stored t j (store model id new d) ≡ some p
      → get "userId" p ≢ str target
      → stored t j d ≡ some p
  unwritten model id t j p new d owned h n = elim (Bool-cases (model == t)) [
    | inl same ↦ elim (Bool-cases (id == j)) [
      | inl here ↦
          let found : new ≡ p =
            some_same (sym (stored-store model id t j new d ∙ rw same (rw here refl)) ∙ h) in
          absurd (n (ap (get "userId") (sym found) ∙ owned))
      | inr apart ↦ sym (stored-store model id t j new d ∙ rw same (rw apart refl)) ∙ h
    ]
    | inr apart ↦ sym (stored-store model id t j new d ∙ rw apart refl) ∙ h
  ]

  pub Steps-written :
      (model id : String) (seq : ℕ) (q : Row) (d : Db)
      → base ≤ seq
      → stored model id d ≡ some q
      → Steps d (store model id (("userId", str target) ∷ ("seq", big (seq + 1)) ∷ q) d)
  Steps-written model id seq q d low there = record {
    agrees =
        λ t j r h. written (Agrees r) model j t id q _ d there (λ a k u n. rw u (rw n (a k u n))) h;
    moved = λ t j r h.
        written (IsMoved target base r) model j t id q _ d there
          (λ m. record {
            owned = refl;
            fresh = omega (arith, low);
            agrees = λ k u n. rw u (rw n (m.agrees k u n));
          })
          h;
    counts = omega arith;
    old = λ t j p h n. unwritten model id t j p _ d refl h n;
  }

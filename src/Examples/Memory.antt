-- ===== src/Examples/Memory.antt =====
-- Lists as a database: it meets every assumption that is made of Prisma.
use planner_api.Common.{
  ◌+◌, String, ◌≡◌, refl, sym, ap, ◌↔◌, Bool, true, false, Option, none, some, List, [], ◌∷◌, ◌++◌,
  ◌==◌, eq_iff, arith, length, filter, All, Occurs, Occurs-append, Occurs-append_left,
  Occurs-append_right, if◌then◌else◌, Bool-cases, inl, inr, ◌⊎◌, All-from_Occurs, All-Occurs,
}
use planner_api.Store.Value.{Row, id_of, spread}
use planner_api.Store.Query.{Where, matches}
use planner_api.Store.Db.{
  Db, lookup, Stored, insert_row, update_row, delete_rows, defined, Order, IsOrder, Sorted, Prisma,
}

pub insert : Order → Row → List Row → List Row
insert le a [] = a ∷ []
insert le a (b ∷ l) = let rest = insert le a l in if le a b then a ∷ b ∷ l else b ∷ rest

pub sort : Order → List Row → List Row
unfolding insert
sort le [] = []
sort le (a ∷ l) = insert le a (sort le l)

abbrev keep : String → Option Row → List Row
keep k none = []
keep k (some r) = if id_of r == k then r ∷ [] else []

-- The rows that the keys of `l` find in `all`.
pub rows_at : List (String × Row) → List (String × Row) → List Row
rows_at [] all = []
rows_at ((k, _) ∷ l) all = keep k (lookup k all) ++ rows_at l all

abbrev first : List Row → Option Row
first [] = none
first (r ∷ l) = some r

pub select : String → (Row → Bool) → Db → List Row
unfolding rows_at
select m p d = filter p (rows_at (d.rows m) (d.rows m))

length-insert : (le : Order) (a : Row) (l : List Row) → length (insert le a l) ≡ length l + 1
unfolding insert
length-insert le a [] = omega arith
length-insert le a (b ∷ l) = ground (arith, length-insert le a l)

pub length-sort : (le : Order) (l : List Row) → length (sort le l) ≡ length l
unfolding sort
length-sort le [] = refl
length-sort le (a ∷ l) = omega (arith, length-insert le a (sort le l), length-sort le l)

exchange : {P Q R S : Type 0} → S ↔ (P ⊎ R) → (Q ⊎ S) ↔ (P ⊎ (Q ⊎ R))
exchange {P} {Q} {R} {S} h = (there, back)
  where
    there : Q ⊎ S → P ⊎ (Q ⊎ R)
    there (inl q) = inr (inl q)
    there (inr s) = elim (h.0 s) [ inl p ↦ inl p | inr r ↦ inr (inr r) ]

    back : P ⊎ (Q ⊎ R) → Q ⊎ S
    back (inl p) = inr (h.1 (inl p))
    back (inr (inl q)) = inl q
    back (inr (inr r)) = inr (h.1 (inr r))

under : {P Q R : Type 0} → Q ↔ R → (P ⊎ Q) ↔ (P ⊎ R)
under {P} {Q} {R} h = (there, back)
  where
    there : P ⊎ Q → P ⊎ R
    there (inl p) = inl p
    there (inr q) = inr (h.0 q)

    back : P ⊎ R → P ⊎ Q
    back (inl p) = inl p
    back (inr r) = inr (h.1 r)

Occurs-insert :
    (le : Order) (a r : Row) (l : List Row) → Occurs r (insert le a l) ↔ ((r ≡ a) ⊎ Occurs r l)
unfolding insert
Occurs-insert le a r [] = (λ o. o, λ o. o)
Occurs-insert le a r (b ∷ l) = elim (Bool-cases (le a b)) [
  | inl e ↦ rw e (λ o. o, λ o. o)
  | inr e ↦ rw e (exchange (Occurs-insert le a r l))
]

Occurs-sort : (le : Order) (r : Row) (l : List Row) → Occurs r (sort le l) ↔ Occurs r l
unfolding sort
Occurs-sort le r [] = (λ o. o, λ o. o)
Occurs-sort le r (a ∷ l) =
    let (to, from) = Occurs-insert le a r (sort le l) in
    let (down, up) = under {P = r ≡ a} (Occurs-sort le r l) in (λ o. down (to o), λ o. from (up o))

Occurs-filter :
    (p : Row → Bool) (r : Row) (l : List Row) → Occurs r (filter p l) ↔ (Occurs r l × (p r ≡ true))
Occurs-filter p r [] = (λ o. absurd o, λ h. absurd h.0)
Occurs-filter p r (a ∷ l) = elim (Bool-cases (p a)) [
  | inl e ↦ rw e (there e (Occurs-filter p r l), back (Occurs-filter p r l))
  | inr e ↦
      rw e (λ o. let (x, y) = (Occurs-filter p r l).0 o in (inr x, y), skip e (Occurs-filter p r l))
]
  where
    there :
        p a ≡ true
        → Occurs r (filter p l) ↔ (Occurs r l × (p r ≡ true))
        → (r ≡ a) ⊎ Occurs r (filter p l)
        → ((r ≡ a) ⊎ Occurs r l) × (p r ≡ true)
    there e ih (inl q) = (inl q, rw q e)
    there e ih (inr o) = let (x, y) = ih.0 o in (inr x, y)

    back :
        Occurs r (filter p l) ↔ (Occurs r l × (p r ≡ true))
        → ((r ≡ a) ⊎ Occurs r l) × (p r ≡ true)
        → (r ≡ a) ⊎ Occurs r (filter p l)
    back ih (inl q, h) = inl q
    back ih (inr o, h) = inr (ih.1 (o, h))

    skip :
        p a ≡ false
        → Occurs r (filter p l) ↔ (Occurs r l × (p r ≡ true))
        → ((r ≡ a) ⊎ Occurs r l) × (p r ≡ true)
        → Occurs r (filter p l)
    skip e ih (inl q, h) = let same : p a ≡ true = rw (← q) h in cc
    skip e ih (inr o, h) = ih.1 (o, h)

Occurs-keep :
    (r : Row) (k : String) (o : Option Row) → Occurs r (keep k o) → (o ≡ some r) × (id_of r ≡ k)
Occurs-keep r k none h = absurd h
Occurs-keep r k (some q) h = elim (Bool-cases (id_of q == k)) [
  | inl e ↦ found (rw e at h) ((eq_iff (id_of q) k).0 e)
  | inr e ↦ absurd (rw e at h)
]
  where
    found : (r ≡ q) ⊎ ⊥ → id_of q ≡ k → (some q ≡ some r) × (id_of r ≡ k)
    found (inl p) e = (ap some (sym p), rw p e)
    found (inr b) e = absurd b

keep_own : (r : Row) (o : Option Row) → o ≡ some r → Occurs r (keep (id_of r) o)
keep_own r none h = cc
keep_own r (some q) h = ground (arith, eq_iff (id_of q) (id_of r))

Occurs-rows_at :
    (r : Row) (l all : List (String × Row))
    → Occurs r (rows_at l all)
    → lookup (id_of r) all ≡ some r
unfolding rows_at
Occurs-rows_at r [] all o = absurd o
Occurs-rows_at r ((k, q) ∷ l) all o =
    elim (Occurs-append r (keep k (lookup k all)) (rows_at l all) o) [
      | inl h ↦ let (e, f) = Occurs-keep r k (lookup k all) h in rw f e
      | inr h ↦ Occurs-rows_at r l all h
    ]

rows_at_of_lookup :
    (r q : Row) (l all : List (String × Row))
    → lookup (id_of r) l ≡ some q
    → lookup (id_of r) all ≡ some r
    → Occurs r (rows_at l all)
unfolding rows_at
rows_at_of_lookup r q [] all h f = cc
rows_at_of_lookup r q ((k, a) ∷ l) all h f = elim (Bool-cases (k == id_of r)) [
  | inl e ↦
      Occurs-append_left r (keep k (lookup k all)) (rows_at l all)
        (rw ((eq_iff k (id_of r)).0 e) (keep_own r (lookup (id_of r) all) f))
  | inr e ↦
      Occurs-append_right r (keep k (lookup k all)) (rows_at l all)
        (rows_at_of_lookup r q l all (rw e at h) f)
]

pub Occurs-select :
    (m : String) (p : Row → Bool) (d : Db) (r : Row)
    → Occurs r (select m p d) ↔ (Stored m r d × (p r ≡ true))
unfolding select
Occurs-select m p d r =
    let (to, from) = Occurs-filter p r (rows_at (d.rows m) (d.rows m)) in
    (
      λ o. (Occurs-rows_at r (d.rows m) (d.rows m) (to o).0, (to o).1),
      λ h. from (rows_at_of_lookup r r (d.rows m) (d.rows m) h.0 h.0, h.1),
    )

insert-Sorted :
    (le : Order) (a : Row) (l : List Row) → IsOrder le → Sorted le l → Sorted le (insert le a l)
unfolding insert
insert-Sorted le a [] o h = (tt, tt)
insert-Sorted le a (b ∷ l) o h = elim (Bool-cases (le a b)) [
  | inl e ↦ rw e ((e, below e), h)
  | inr e ↦ rw e (above e, insert-Sorted le a l o h.1)
]
  where
    below : le a b ≡ true → All (λ q. le a q ≡ true) l
    below e =
        All-from_Occurs (λ q. le a q ≡ true) l
          (λ q oq. o.trans a b q e (All-Occurs (λ q. le b q ≡ true) q l h.0 oq))

    flip : le a b ≡ false → (le a b ≡ true) ⊎ (le b a ≡ true) → le b a ≡ true
    flip e (inl p) = cc
    flip e (inr p) = p

    among : le b a ≡ true → (q : Row) → (q ≡ a) ⊎ Occurs q l → le b q ≡ true
    among ba q (inl p) = rw p ba
    among ba q (inr oq) = All-Occurs (λ q. le b q ≡ true) q l h.0 oq

    above : le a b ≡ false → All (λ q. le b q ≡ true) (insert le a l)
    above e =
        All-from_Occurs (λ q. le b q ≡ true) (insert le a l)
          (λ q oq. among (flip e (o.total a b)) q ((Occurs-insert le a q l).0 oq))

pub sort-Sorted : (le : Order) (l : List Row) → IsOrder le → Sorted le (sort le l)
unfolding sort
sort-Sorted le [] o = tt
sort-Sorted le (a ∷ l) o = insert-Sorted le a (sort le l) o (sort-Sorted le l o)

pub first-Occurs : (r : Row) (l : List Row) → first l ≡ some r → Occurs r l
first-Occurs r [] h = cc
first-Occurs r (a ∷ l) h = inl (ground arith)

none_of_first : (r : Row) (l : List Row) → first l ≡ none → ¬ Occurs r l
none_of_first r [] h o = o
none_of_first r (a ∷ l) h o = cc

refuse : (b : Bool) → ¬ (b ≡ true) → b ≡ false
refuse true h = absurd (h refl)
refuse false h = refl

module _ (like : String → String → Bool) where
  pub find : String → Where → Order → Db → List Row
  find m w le d = sort le (select m (matches like w) d)

  pub Occurs-find :
      (m : String) (w : Where) (le : Order) (d : Db) (r : Row)
      → Occurs r (find m w le d) ↔ (Stored m r d × (matches like w r ≡ true))
  unfolding find
  Occurs-find m w le d r =
      let (to, from) = Occurs-sort le r (select m (matches like w) d) in
      let (down, up) = Occurs-select m (matches like w) d r in (λ o. down (to o), λ h. from (up h))

  pub none_fits :
      (m : String) (w : Where) (d : Db) (r : Row)
      → first (select m (matches like w) d) ≡ none
      → Stored m r d
      → matches like w r ≡ false
  none_fits m w d r e h =
      refuse (matches like w r)
        (λ t. none_of_first r _ e ((Occurs-select m (matches like w) d r).1 (h, t)))

  unfoldable pub memory : Prisma
  unfolding find select sort
  memory = record {
    like = like;
    defaults = λ m. [];
    find_first = λ m w d. first (select m (matches like w) d);
    find_many = find;
    count = λ m w d. length (select m (matches like w) d);
    create = λ m r d. insert_row m (spread [] (defined r)) d;
    update = update_row;
    client_error = λ user device d. none;
    delete_many =
        λ m w d. delete_rows (length (select m (matches like w) d)) m (λ k. matches like w) d;
    find_first-some = λ m w d r e. (Occurs-select m (matches like w) d r).0 (first-Occurs r _ e);
    find_first-none = none_fits;
    find_many_iff = Occurs-find;
    find_many-Sorted = λ m w le d o. sort-Sorted le (select m (matches like w) d) o;
    count_lem = λ m w le d. sym (length-sort le (select m (matches like w) d));
    create_lem = λ m r d. refl;
    update_lem = λ m id r d h. refl;
    delete_many_lem = λ m w le d.
        ap (λ n. delete_rows n m (λ k. matches like w) d)
          (sym (length-sort le (select m (matches like w) d)));
  }

-- ===== src/Store/Effects.antt =====
-- What a write does to the row that an id finds.
use planner_api.Common.{
  String, ◌≡◌, ap, Bool, ◌&&◌, ◌||◌, none, some, List, [], ◌∷◌, ◌++◌, ◌==◌, eq_iff, eq_refl, arith,
  Bool-cases, inl, inr, if◌then◌else◌, refl, Option, false, true,
}
use planner_api.Store.Value.{Value, Row, id_of, has, spread, get, null, undefined}
use planner_api.Store.Db.{
  Db, lookup, put_entry, without, drops, stored, store, remove, insert_row, update_row,
  refuse_taken, move_row, update_found, defined, ok, keeps_links, KeepsId, clear, map_rows, refers,
  unlink,
}
use planner_api.Store.Links.{is_referenced, is_link}

module _ {A : Type 0} where
  pub lookup-without :
      (p : String → Bool) (j : String) (l : List (String × A))
      → lookup j (without p l) ≡ (if p j then none else lookup j l)
  lookup-without p j [] = ground arith
  lookup-without p j ((k, a) ∷ l) = ground (arith, lookup-without p j l, eq_iff k j)

  pub lookup-put_entry :
      (k j : String) (a : A) (l : List (String × A))
      → lookup j (put_entry k a l) ≡ (if k == j then some a else lookup j l)
  lookup-put_entry k j a [] = refl
  lookup-put_entry k j a ((i, b) ∷ l) =
      ground (arith, lookup-put_entry k j a l, eq_iff i k, eq_iff i j, eq_iff k j)

pub stored-store :
    (m id t j : String) (r : Row) (d : Db)
    → stored t j (store m id r d)
      ≡ (if m == t then (if id == j then some r else stored t j d) else stored t j d)
stored-store m id t j r d = ground (arith, lookup-put_entry id j r (d.rows t))

pub stored-remove :
    (m t j : String) (p : String → Row → Bool) (d : Db)
    → stored t j (remove m p d) ≡ (
        if m == t
        then (if drops (p j) (stored t j d) then none else stored t j d)
        else stored t j d)
stored-remove m t j p d =
    ground (arith, lookup-without (λ k. drops (p k) (lookup k (d.rows t))) j (d.rows t))

-- What Prisma leaves out names no column.
pub has-defined : (k : String) (r : Row) → has k r ≡ false → has k (defined r) ≡ false
has-defined k [] h = refl
has-defined k ((j, v) ∷ r) h = ground (arith, has-defined k r, h)

-- Tables other than the written one stay.
pub rows-insert_row :
    (m t : String) (r : Row) (d : Db) → (m == t) ≡ false → (insert_row m r d).1.rows t ≡ d.rows t
rows-insert_row m t r d n = go (stored m (id_of r) d)
  where
    go : (o : Option Row) → (refuse_taken o m r d).1.rows t ≡ d.rows t
    go none = ground (arith, n)
    go (some q) = refl

pub rows-update_row :
    (m t id : String) (columns : Row) (d : Db)
    → (m == t) ≡ false
    → (update_row m id columns d).1.rows t ≡ d.rows t
rows-update_row m t id columns d n = found (stored m id d)
  where
    moved : (o : Option Row) (r : Row) → (move_row o m id r d).1.rows t ≡ d.rows t
    moved none r = rw n refl
    moved (some q) r = refl

    replaced :
        (b : Bool) (r : Row)
        → (if b then (ok r, store m id r d) else move_row (stored m (id_of r) d) m id r d).1.rows t
          ≡ d.rows t
    replaced true r = rw n refl
    replaced false r = moved (stored m (id_of r) d) r

    found : (o : Option Row) → (update_found o m id columns d).1.rows t ≡ d.rows t
    found none = refl
    found (some r) =
        replaced (id_of (spread r (defined columns)) == id) (spread r (defined columns))

pub or_true : (b : Bool) → (b || true) ≡ true
or_true true = refl
or_true false = refl

-- What no row refers to may take any id.
pub keeps_links-leaf :
    (m id : String) (columns : Row) → is_referenced m ≡ false → keeps_links m id columns ≡ true
keeps_links-leaf m id columns h = rw h (or_true _)

pub keeps_links-same :
    (m id : String) (columns : Row) → KeepsId id columns → keeps_links m id columns ≡ true
keeps_links-same m id columns h = rw h refl

pub keeps_links-has :
    (m id : String) (columns : Row)
    → has "id" (defined columns) ≡ false
    → keeps_links m id columns ≡ true
keeps_links-has m id columns h = rw h refl

get-defined_append :
    (k : String) (a b : Row) → has k a ≡ false → get k (defined (a ++ b)) ≡ get k (defined b)
get-defined_append k [] b h = refl
get-defined_append k ((j, v) ∷ a) b h = ground (arith, get-defined_append k a b, h)

has-defined_append :
    (k : String) (a b : Row) → has k a ≡ false → has k (defined (a ++ b)) ≡ has k (defined b)
has-defined_append k [] b h = refl
has-defined_append k ((j, v) ∷ a) b h = ground (arith, has-defined_append k a b, h)

pub keeps_links-append :
    (m id : String) (a b : Row)
    → has "id" a ≡ false
    → KeepsId id b
    → keeps_links m id (a ++ b) ≡ true
keeps_links-append m id a b h same =
    keeps_links-same m id (a ++ b)
      (rw (has-defined_append "id" a b h) (rw (get-defined_append "id" a b h) same))

pub get-clear :
    (listed : String → Bool) (gone : Value → Bool) (k : String) (r : Row)
    → gone undefined ≡ false
    → get k (clear listed gone r) ≡ (if listed k && gone (get k r) then null else get k r)
get-clear listed gone k [] h = ground (arith, h)
get-clear listed gone k ((j, v) ∷ r) h = elim (Bool-cases (j == k)) [
  | inl e ↦ rw e (rw ((eq_iff j k).0 e) refl)
  | inr e ↦ rw e (get-clear listed gone k r h)
]

pub clear_none :
    (listed : String → Bool) (gone : Value → Bool) (r : Row)
    → ((k : String) → listed k ≡ false)
    → clear listed gone r ≡ r
clear_none listed gone [] h = refl
clear_none listed gone ((k, v) ∷ r) h = rw (h k) (ap (λ l. (k, v) ∷ l) (clear_none listed gone r h))

abbrev pub map_option : {A : Type 0} → (A → A) → Option A → Option A
map_option f none = none
map_option f (some a) = some (f a)

lookup-map_rows :
    {A : Type 0} (f : A → A) (j : String) (l : List (String × A))
    → lookup j (map_rows f l) ≡ map_option f (lookup j l)
lookup-map_rows f j [] = refl
lookup-map_rows f j ((k, a) ∷ l) = elim (Bool-cases (k == j)) [
  | inl e ↦ rw e refl
  | inr e ↦ rw e (lookup-map_rows f j l)
]

pub stored-unlink_own :
    (m j : String) (p : String → Row → Bool) (d : Db)
    → stored m j (unlink m p d) ≡ (if drops (p j) (stored m j d) then none else stored m j d)
unfolding unlink
stored-unlink_own m j p d =
    rw (eq_refl m) (lookup-without (λ k. drops (p k) (lookup k (d.rows m))) j (d.rows m))

pub stored-unlink_other :
    (m t j : String) (p : String → Row → Bool) (d : Db)
    → (m == t) ≡ false
    → stored t j (unlink m p d) ≡ map_option (clear (is_link m t) (refers m p d)) (stored t j d)
unfolding unlink
stored-unlink_other m t j p d n =
    rw n (lookup-map_rows (clear (is_link m t) (refers m p d)) j (d.rows t))

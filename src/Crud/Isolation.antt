-- ===== src/Crud/Isolation.antt =====
-- No action of one user reaches the rows or the counter of another.
use planner_api.Common.{
  String, ◌≡◌, refl, ◌∙◌, false, Option, none, some, ◌==◌, eq_iff, arith, if◌then◌else◌, Bool-cases,
  inl, inr,
}
use planner_api.Store.Value.{Row, id_of, owner, has, get-append, spread}
use planner_api.Store.Db.{
  Db, stored, store, remove, refuse_taken, move_row, replace_row, update_found, update_row,
  insert_row, defined,
}
use planner_api.Store.Effects.{stored-store, stored-remove}

-- What a user sees of a row.
abbrev pub theirs : String → Option Row → Option Row
theirs v none = none
theirs v (some r) = if owner r == v then some r else none

-- For everybody but `user` the tables and the counter are the same.
pub record Isolated (user : String) (d e : Db) : Type 0 where
  pub rows_same :
      (v m id : String) → (v == user) ≡ false → theirs v (stored m id e) ≡ theirs v (stored m id d)
  pub seq_same : (v : String) → (v == user) ≡ false → e.last_seq v ≡ d.last_seq v
  pub clients_same : (v : String) → (v == user) ≡ false → e.clients v ≡ d.clients v

pub Isolated-refl : (user : String) (d : Db) → Isolated user d d
Isolated-refl user d = record {
  rows_same = λ v m id n. refl;
  seq_same = λ v n. refl;
  clients_same = λ v n. refl;
}

pub Isolated-trans :
    (user : String) (d e f : Db) → Isolated user d e → Isolated user e f → Isolated user d f
Isolated-trans user d e f h k = record {
  rows_same = λ v m id n. k.rows_same v m id n ∙ h.rows_same v m id n;
  seq_same = λ v n. k.seq_same v n ∙ h.seq_same v n;
  clients_same = λ v n. k.clients_same v n ∙ h.clients_same v n;
}

-- The row is the user's, if there is one.
abbrev pub IsOwn : String → Option Row → Type 0
IsOwn user none = Unit
IsOwn user (some r) = owner r ≡ user

theirs-IsOwn :
    (user v : String) (o : Option Row) → IsOwn user o → (v == user) ≡ false → theirs v o ≡ none
theirs-IsOwn user v none h n = refl
theirs-IsOwn user v (some r) h n = ground (arith, eq_iff (owner r) v, eq_iff v user)

pub store-Isolated :
    (user m id : String) (r : Row) (d : Db)
    → IsOwn user (stored m id d)
    → owner r ≡ user
    → Isolated user d (store m id r d)
store-Isolated user m id r d old own = record {
  rows_same = λ v t j n. elim (Bool-cases (m == t)) [
    | inr e ↦ ground (arith, stored-store m id t j r d)
    | inl e ↦ elim (Bool-cases (id == j)) [
      | inr f ↦ ground (arith, stored-store m id t j r d)
      | inl f ↦ ground (
        arith,
        stored-store m id t j r d,
        eq_iff m t,
        eq_iff id j,
        theirs-IsOwn user v (stored m id d) old n,
        theirs-IsOwn user v (some r) own n,
      )
    ]
  ];
  seq_same = λ v n. refl;
  clients_same = λ v n. refl;
}

remove-Isolated :
    (user m id : String) (d : Db)
    → IsOwn user (stored m id d)
    → Isolated user d (remove m (λ k _. k == id) d)
remove-Isolated user m id d old = record {
  rows_same = λ v t j n. elim (Bool-cases (m == t)) [
    | inr e ↦ ground (arith, stored-remove m t j (λ k _. k == id) d)
    | inl e ↦ elim (Bool-cases (j == id)) [
      | inr f ↦ ground (arith, stored-remove m t j (λ k _. k == id) d)
      | inl f ↦ ground (
        arith,
        stored-remove m t j (λ k _. k == id) d,
        eq_iff m t,
        eq_iff j id,
        theirs-IsOwn user v (stored m id d) old n,
      )
    ]
  ];
  seq_same = λ v n. refl;
  clients_same = λ v n. refl;
}

refuse_taken-Isolated :
    (user m : String) (o : Option Row) (r : Row) (d : Db)
    → o ≡ stored m (id_of r) d
    → owner r ≡ user
    → Isolated user d (refuse_taken o m r d).1
refuse_taken-Isolated user m none r d e own = store-Isolated user m (id_of r) r d (rw (← e) tt) own
refuse_taken-Isolated user m (some q) r d e own = Isolated-refl user d

pub insert_row-Isolated :
    (user m : String) (r : Row) (d : Db) → owner r ≡ user → Isolated user d (insert_row m r d).1
insert_row-Isolated user m r d own =
    refuse_taken-Isolated user m (stored m (id_of r) d) r d refl own

move_row-Isolated :
    (user m id : String) (o : Option Row) (r : Row) (d : Db)
    → IsOwn user (stored m id d)
    → o ≡ stored m (id_of r) d
    → owner r ≡ user
    → Isolated user d (move_row o m id r d).1
move_row-Isolated user m id none r d old e own =
    Isolated-trans user d (remove m (λ k _. k == id) d) _ (remove-Isolated user m id d old)
      (store-Isolated user m (id_of r) r (remove m (λ k _. k == id) d) (rw gone tt) own)
  where
    gone : stored m (id_of r) (remove m (λ k _. k == id) d) ≡ none
    gone = ground (arith, stored-remove m m (id_of r) (λ k _. k == id) d)
move_row-Isolated user m id (some q) r d old e own = Isolated-refl user d

replace_row-Isolated :
    (user m id : String) (r : Row) (d : Db)
    → IsOwn user (stored m id d)
    → owner r ≡ user
    → Isolated user d (replace_row m id r d).1
replace_row-Isolated user m id r d old own = elim (Bool-cases (id_of r == id)) [
  | inl e ↦ rw e (store-Isolated user m id r d old own)
  | inr e ↦ rw e (move_row-Isolated user m id (stored m (id_of r) d) r d old refl own)
]

-- New column values that leave the owner alone keep the row the user's.
unfoldable pub KeepsOwner : String → Row → Type 0
KeepsOwner user columns = (r : Row) → owner r ≡ user → owner (spread r (defined columns)) ≡ user

update_found-Isolated :
    (user m id : String) (columns : Row) (o : Option Row) (d : Db)
    → o ≡ stored m id d
    → IsOwn user o
    → KeepsOwner user columns
    → Isolated user d (update_found o m id columns d).1
unfolding KeepsOwner
update_found-Isolated user m id columns none d e own keep = Isolated-refl user d
update_found-Isolated user m id columns (some r) d e own keep =
    replace_row-Isolated user m id (spread r (defined columns)) d (rw (← e) own) (keep r own)

pub update_row-Isolated :
    (user m id : String) (columns : Row) (d : Db)
    → IsOwn user (stored m id d)
    → KeepsOwner user columns
    → Isolated user d (update_row m id columns d).1
update_row-Isolated user m id columns d own keep =
    update_found-Isolated user m id columns (stored m id d) d refl own keep

-- A column list that does not name `userId` leaves the owner alone.
pub KeepsOwner-has :
    (user : String) (columns : Row)
    → has "userId" (defined columns) ≡ false
    → KeepsOwner user columns
unfolding KeepsOwner
KeepsOwner-has user columns h r own = rw (get-append "userId" (defined columns) r, h) own

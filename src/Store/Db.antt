-- ===== src/Store/Db.antt =====
-- The database as the services see it: the rows of each Prisma model by id, the sync_state
-- table, and of each user the sync_client rows by device. `Prisma` is what the services rely on of the Prisma client.
use planner_api.Common.{
  ℕ, String, ◌≡◌, Bool, true, false, not, ◌&&◌, ◌||◌, any, Option, none, some, List, [], ◌∷◌, ◌==◌,
  ◌⊎◌, ◌↔◌, length, All, Occurs, if◌then◌else◌,
}
use planner_api.Store.Value.{Value, null, str, Row, get, has, spread, is_undefined, id_of}
use planner_api.Store.Query.{Where, matches, value_eq}
use planner_api.Store.Links.{relations, is_referenced, is_link}

-- The exceptions that reach `AllExceptionsFilter`, each with its message; a known request error
-- carries Prisma's code, and a validation error is one of Prisma's too.
pub data Exception : Type 0 where
  not_found bad_request unauthorized forbidden service_unavailable : String → Exception
  known_request : String → Exception
  validation_error : String → Exception
  failure : String → Exception

pub data Result (A : Type 0) : Type 0 where
  ok : A → Result A
  err : Exception → Result A

pub record Db : Type 0 where
  pub rows : String → List (String × Row)
  pub last_seq : String → Option ℕ
  pub clients : String → List (String × Row)

abbrev pub lookup {ℓ} : {A : Type ℓ} → String → List (String × A) → Option A
lookup k [] = none
lookup k ((j, a) ∷ l) = if j == k then some a else lookup k l

abbrev pub stored : String → String → Db → Option Row
stored m id d = lookup id (d.rows m)

-- The row is in the table, under its id.
abbrev pub Stored : String → Row → Db → Type 0
Stored m r d = stored m (id_of r) d ≡ some r

abbrev pub put_entry {ℓ} : {A : Type ℓ} → String → A → List (String × A) → List (String × A)
put_entry k a [] = (k, a) ∷ []
put_entry k a ((j, b) ∷ l) =
    let rest = put_entry k a l in if j == k then (k, a) ∷ l else (j, b) ∷ rest

abbrev pub store : String → String → Row → Db → Db
store m id r d = record d { rows = λ t. if m == t then put_entry id r (d.rows t) else d.rows t }

abbrev pub drops {ℓ} : {A : Type ℓ} → (A → Bool) → Option A → Bool
drops p none = false
drops p (some a) = p a

abbrev pub without {ℓ} : {A : Type ℓ} → (String → Bool) → List (String × A) → List (String × A)
without p [] = []
without p ((k, a) ∷ l) = let rest = without p l in if p k then rest else (k, a) ∷ rest

-- The rows that pass the test go.
abbrev pub remove : String → (String → Row → Bool) → Db → Db
remove m p d = record d {
  rows =
      λ t. if m == t then without (λ k. drops (p k) (lookup k (d.rows t))) (d.rows t) else d.rows t;
}

-- Prisma leaves out the columns whose value is `undefined`.
abbrev pub defined : Row → Row
defined [] = []
defined ((k, v) ∷ r) = let rest = defined r in if is_undefined v then rest else (k, v) ∷ rest

abbrev pub refuse_taken : Option Row → String → Row → Db → Result Row × Db
refuse_taken (some _) m r d = (err (known_request "P2002"), d)
refuse_taken none m r d = (ok r, store m (id_of r) r d)

-- An insert: the row's id is its key, and must be free.
abbrev pub insert_row : String → Row → Db → Result Row × Db
insert_row m r d = refuse_taken (stored m (id_of r) d) m r d

abbrev pub move_row : Option Row → String → String → Row → Db → Result Row × Db
move_row (some _) m id r d = (err (known_request "P2002"), d)
move_row none m id r d = (ok r, store m (id_of r) r (remove m (λ k _. k == id) d))

-- A row that has new column values goes back under its id; if they change the id, the row moves.
abbrev pub replace_row : String → String → Row → Db → Result Row × Db
replace_row m id r d =
    if id_of r == id then (ok r, store m id r d) else move_row (stored m (id_of r) d) m id r d

abbrev pub update_found : Option Row → String → String → Row → Db → Result Row × Db
update_found none m id columns d = (err (known_request "P2025"), d)
update_found (some r) m id columns d = replace_row m id (spread r (defined columns)) d

abbrev pub update_row : String → String → Row → Db → Result Row × Db
update_row m id columns d = update_found (stored m id d) m id columns d

-- The columns give the row no other id, or no other table refers to rows of this one.
abbrev pub names_other : String → Row → Bool
names_other id columns = has "id" columns && not (value_eq (get "id" columns) (str id))

abbrev pub keeps_links : String → String → Row → Bool
keeps_links m id columns = not (names_other id (defined columns)) || not (is_referenced m)

-- The columns name no other id than the row's.
abbrev pub KeepsId : String → Row → Type 0
KeepsId id columns = names_other id (defined columns) ≡ false

-- The value is the id of a row of the table that passes the test.
abbrev pub refers : String → (String → Row → Bool) → Db → Value → Bool
refers m p d (str id) = drops (p id) (stored m id d)
refers m p d _ = false

-- The listed columns become null where their value is gone.
abbrev pub clear : (String → Bool) → (Value → Bool) → Row → Row
clear listed gone [] = []
clear listed gone ((k, v) ∷ r) = (k, if listed k && gone v then null else v) ∷ clear listed gone r

abbrev pub map_rows {ℓ} : {A : Type ℓ} → (A → A) → List (String × A) → List (String × A)
map_rows f [] = []
map_rows f ((k, a) ∷ l) = (k, f a) ∷ map_rows f l

-- `onDelete: SetNull`: the rows that pass the test go, and the optional links to them become null.
unfoldable pub unlink : String → (String → Row → Bool) → Db → Db
unlink m p d = record d {
  rows = λ t.
      if m == t
      then without (λ k. drops (p k) (lookup k (d.rows t))) (d.rows t)
      else map_rows (clear (is_link m t) (refers m p d)) (d.rows t);
}

-- `onDelete: Restrict`: a row refers to one that passes the test, and the relation is required.
unfoldable pub is_restricted : String → (String → Row → Bool) → Db → Bool
unfolding relations
is_restricted m p d =
    any
      (λ r.
        r.is_required
        && (r.parent == m
            && any (λ e. drops (λ q. refers m p d (get r.column q)) (lookup e.0 (d.rows r.child)))
                (d.rows r.child)))
      relations

unfoldable pub delete_rows : ℕ → String → (String → Row → Bool) → Db → Result ℕ × Db
unfolding unlink is_restricted
delete_rows n m p d =
    if is_restricted m p d then (err (known_request "P2014"), d) else (ok n, unlink m p d)

-- `a` may stand before `b`.
abbrev pub Order : Type 0
Order = Row → Row → Bool

pub record IsOrder (le : Order) : Type 0 where
  pub total : (a b : Row) → (le a b ≡ true) ⊎ (le b a ≡ true)
  pub trans : (a b c : Row) → le a b ≡ true → le b c ≡ true → le a c ≡ true

abbrev pub Sorted : Order → List Row → Type 0
Sorted le [] = Unit
Sorted le (r ∷ rs) = All (λ q. le r q ≡ true) rs × Sorted le rs

-- What Prisma and PostgreSQL document. Which row `findFirst` takes, the order of rows that an
-- `orderBy` leaves open, the schema's default values and the comparison of letters are theirs. An
-- update that gives a row of a referenced table another id is left open: Prisma then also writes the
-- rows that refer to it.
pub record Prisma : Type 0 where
  pub like : String → String → Bool
  pub defaults : String → Row
  pub find_first : String → Where → Db → Option Row
  pub find_many : String → Where → Order → Db → List Row
  pub count : String → Where → Db → ℕ
  pub create : String → Row → Db → Result Row × Db
  pub update : String → String → Row → Db → Result Row × Db
  -- What keeps the `upsert` of a user's device from succeeding, if anything does.
  pub client_error : String → String → Db → Option Exception
  pub delete_many : String → Where → Db → Result ℕ × Db
  pub find_first-some :
      (m : String) (w : Where) (d : Db) (r : Row)
      → find_first m w d ≡ some r
      → Stored m r d × (matches like w r ≡ true)
  pub find_first-none :
      (m : String) (w : Where) (d : Db) (r : Row)
      → find_first m w d ≡ none
      → Stored m r d
      → matches like w r ≡ false
  pub find_many_iff :
      (m : String) (w : Where) (le : Order) (d : Db) (r : Row)
      → Occurs r (find_many m w le d) ↔ (Stored m r d × (matches like w r ≡ true))
  pub find_many-Sorted :
      (m : String) (w : Where) (le : Order) (d : Db) → IsOrder le → Sorted le (find_many m w le d)
  pub count_lem :
      (m : String) (w : Where) (le : Order) (d : Db) → count m w d ≡ length (find_many m w le d)
  pub create_lem :
      (m : String) (columns : Row) (d : Db)
      → create m columns d ≡ insert_row m (spread (defaults m) (defined columns)) d
  pub update_lem :
      (m id : String) (columns : Row) (d : Db)
      → keeps_links m id columns ≡ true
      → update m id columns d ≡ update_row m id columns d
  pub delete_many_lem :
      (m : String) (w : Where) (le : Order) (d : Db)
      → delete_many m w d ≡ delete_rows (length (find_many m w le d)) m (λ k. matches like w) d

-- ===== src/Sync/Registry/Checks.antt =====
-- What a client row is after `coerce` let it through.
use planner_api.Common.{
  ℕ, String, ◌≡◌, refl, ap, Bool, true, false, not, ◌||◌, Option, none, some, List, [], ◌∷◌, map,
  ◌==◌, arith, filter, any, All, if◌then◌else◌, Bool-cases, inl, inr,
}
use planner_api.Store.Value.{
  Value, undefined, null, bool, int, float, str, date, Row, get, is_undefined,
}
use planner_api.Store.Db.{Result, ok, err, lookup}
use planner_api.Sync.Registry.{
  FieldMeta, TableSchema, server_owned_fields, envelope_fields, includes, enum_has, coerce_value,
  coerce_entries, coerce, check_field, add_field, finish,
}

-- The column type that Prisma declares, for a value that is not null.
abbrev has_type : String → Value → Bool
has_type t (str s) = t == "String"
has_type t (bool b) = t == "Boolean"
has_type t (int z) = (t == "Int") || (t == "Float")
has_type t (float x) = t == "Float"
has_type t (date d) = t == "DateTime"
has_type t v = false

abbrev enum_value : Option (List String) → Value → Bool
enum_value l (str s) = enum_has l s
enum_value l v = false

-- The value may stand in the column.
abbrev pub conforms : FieldMeta → Value → Bool
conforms m null = not m.is_required
conforms m v = if m.is_enum then enum_value m.enum_values v else has_type m.type_name v

abbrev pub keys : Row → List String
keys = map (λ e. e.0)

-- A client's field that is not the server's, nor the envelope's.
abbrev pub is_kept : String → Bool
is_kept k = not (includes server_owned_fields k || includes envelope_fields k)

-- The column is one that a client may write, and holds a value of its type.
pub record IsChecked (t : TableSchema) (k : String) (v : Value) : Type 0 where
  pub kept : is_kept k ≡ true
  pub meta : FieldMeta
  pub known : lookup k t.writable ≡ some meta
  pub fits : conforms meta v ≡ true

module _ (new_date : Value → Option ℕ) where
  pub coerce_value-conforms :
      (m : FieldMeta) (v w : Value) → coerce_value new_date m v ≡ ok w → conforms m w ≡ true
  unfolding coerce_value
  coerce_value-conforms m undefined w h = ground arith
  coerce_value-conforms m v w h = ground arith

  add_field-ok :
      (k : String) (a : Result Value) (rest : Result Row) (out : Row)
      → add_field new_date k a rest ≡ ok out
      → (w : Value) × (r : Row) × (a ≡ ok w) × (rest ≡ ok r) × ((k, w) ∷ r ≡ out)
  add_field-ok k (err e) rest out h = cc
  add_field-ok k (ok w) (err e) out h = cc
  add_field-ok k (ok w) (ok r) out h = (w, r, refl, refl, ground arith)

  -- What the two results of the loop's body have in common.
  coerce_entry_lem :
      (t : TableSchema) (k : String) (v : Value) (o : Option FieldMeta) (rest : Result Row)
      (l : List String) (out : Row)
      → is_kept k ≡ true
      → lookup k t.writable ≡ o
      → ((r : Row) → rest ≡ ok r → (keys r ≡ l) × All (λ e. IsChecked t e.0 e.1) r)
      → check_field new_date o k v rest ≡ ok out
      → (keys out ≡ k ∷ l) × All (λ e. IsChecked t e.0 e.1) out
  coerce_entry_lem t k v none rest l out kept known ih h = cc
  coerce_entry_lem t k v (some m) rest l out kept known ih h =
      let (w, r, a, b, c) = add_field-ok k (coerce_value new_date m v) rest out h in
      let (below, checked) = ih r b in
      rw (← c) (
        ap (λ x. k ∷ x) below,
        (
          record { kept = kept; meta = m; known = known; fits = coerce_value-conforms m v w a },
          checked,
        ),
      )

  coerce_entries_lem :
      (t : TableSchema) (input out : Row)
      → coerce_entries new_date t input ≡ ok out
      → (keys out ≡ filter is_kept (keys input)) × All (λ e. IsChecked t e.0 e.1) out
  unfolding coerce_entries
  coerce_entries_lem t [] [] h = (refl, tt)
  coerce_entries_lem t [] (e ∷ out) h = cc
  coerce_entries_lem t ((k, v) ∷ input) out h =
      elim (Bool-cases (includes server_owned_fields k || includes envelope_fields k)) [
        | inl dropped ↦ rw dropped (coerce_entries_lem t input out (rw dropped at h))
        | inr kept ↦ rw kept (
            coerce_entry_lem t k v (lookup k t.writable) (coerce_entries new_date t input)
              (filter is_kept (keys input)) out (rw kept) refl (coerce_entries_lem t input)
              (rw kept at h))
      ]

  missing_none :
      (required : List String) (out : Row)
      → any (λ f. is_undefined (get f out)) required ≡ false
      → All (λ f. is_undefined (get f out) ≡ false) required
  missing_none [] out h = tt
  missing_none (f ∷ fs) out h = (ground arith, missing_none fs out (ground arith))

  finish-ok :
      (required : List String) (for_create : Bool) (r : Result Row) (out : Row)
      → finish new_date required for_create r ≡ ok out
      → (r ≡ ok out) × (for_create ≡ true → any (λ f. is_undefined (get f out)) required ≡ false)
  finish-ok required for_create (err e) out h = cc
  finish-ok required false (ok r) out h = (h, λ e. cc)
  finish-ok required true (ok r) out h =
      elim (Bool-cases (any (λ f. is_undefined (get f r)) required)) [
        | inl e ↦ ground arith
        | inr e ↦ let same : ok r ≡ ok out = rw e at h in (same, λ _. ground arith)
      ]

  -- If `coerce` accepts a client row, its result has exactly the client's fields less those of the
  -- server and of the envelope, in their order: no other field is dropped. Each of them is a
  -- writable column of the table with a value that the column's declaration allows; and on a create
  -- no required column is missing.
  pub coerce-IsChecked :
      (t : TableSchema) (input : Row) (for_create : Bool) (out : Row)
      → coerce new_date t input for_create ≡ ok out
      → (keys out ≡ filter is_kept (keys input))
        × All (λ e. IsChecked t e.0 e.1) out
        × (for_create ≡ true → All (λ f. is_undefined (get f out) ≡ false) t.required_on_create)
  unfolding coerce
  coerce-IsChecked t input for_create out h =
      let (entries, present) =
        finish-ok t.required_on_create for_create (coerce_entries new_date t input) out h in
      let (names, checked) = coerce_entries_lem t input out entries in
      (names, checked, λ e. missing_none t.required_on_create out (present e))

-- ===== src/Replies/Bigints.antt =====
-- No reply holds a bigint, which `JSON.stringify` refuses.
use planner_api.Common.{ℕ, String, ◌≡◌, refl, ap, ◌∙◌, true}
use planner_api.Store.Value.{Value, undefined, null, object, bool, int, float, big, str, date}
use planner_api.Replies.{
  Data, leaf, array, record_of, Items, no_items, item, Fields, no_fields, field, serialise_bigints,
  serialise_items, serialise_fields, data_or_null, returned, Sent, passed_on, envelope, intercept,
  serialise_leaf,
}

abbrev NoBigint : Value → Type 0
NoBigint (big n) = ⊥
NoBigint v = Unit

unfoldable mutual
  pub LacksBigint : Data → Type 0
  LacksBigint (leaf v) = NoBigint v
  LacksBigint (array l) = ItemsLackBigint l
  LacksBigint (record_of l) = FieldsLackBigint l

  pub ItemsLackBigint : Items → Type 0
  ItemsLackBigint no_items = Unit
  ItemsLackBigint (item d l) = LacksBigint d × ItemsLackBigint l

  pub FieldsLackBigint : Fields → Type 0
  FieldsLackBigint no_fields = Unit
  FieldsLackBigint (field k d l) = LacksBigint d × FieldsLackBigint l

-- What is sent holds no bigint.
abbrev pub SendsNoBigint : Sent → Type 0
SendsNoBigint passed_on = Unit
SendsNoBigint (envelope success d error) = LacksBigint d

or_null-Lacks : (d : Data) → LacksBigint d → LacksBigint (data_or_null d)
unfolding LacksBigint
or_null-Lacks (leaf undefined) h = tt
or_null-Lacks (leaf null) h = h
or_null-Lacks (leaf object) h = h
or_null-Lacks (leaf (bool b)) h = h
or_null-Lacks (leaf (int z)) h = h
or_null-Lacks (leaf (float n)) h = h
or_null-Lacks (leaf (big n)) h = h
or_null-Lacks (leaf (str s)) h = h
or_null-Lacks (leaf (date t)) h = h
or_null-Lacks (array l) h = h
or_null-Lacks (record_of l) h = h

module _ (to_string : ℕ → String) where
  lacks_leaf : (v : Value) → NoBigint (serialise_leaf to_string v)
  lacks_leaf undefined = tt
  lacks_leaf null = tt
  lacks_leaf object = tt
  lacks_leaf (bool b) = tt
  lacks_leaf (int z) = tt
  lacks_leaf (float n) = tt
  lacks_leaf (big n) = tt
  lacks_leaf (str s) = tt
  lacks_leaf (date t) = tt

  mutual
    unfolding serialise_bigints LacksBigint

    serialise_bigints-Lacks : (d : Data) → LacksBigint (serialise_bigints to_string d)
    serialise_bigints-Lacks (leaf v) = lacks_leaf v
    serialise_bigints-Lacks (array l) = serialise_items-Lack l
    serialise_bigints-Lacks (record_of l) = serialise_fields-Lack l

    serialise_items-Lack : (l : Items) → ItemsLackBigint (serialise_items to_string l)
    serialise_items-Lack no_items = tt
    serialise_items-Lack (item d l) = (serialise_bigints-Lacks d, serialise_items-Lack l)

    serialise_fields-Lack : (l : Fields) → FieldsLackBigint (serialise_fields to_string l)
    serialise_fields-Lack no_fields = tt
    serialise_fields-Lack (field k d l) = (serialise_bigints-Lacks d, serialise_fields-Lack l)

  same_leaf : (v : Value) → NoBigint v → serialise_leaf to_string v ≡ v
  same_leaf undefined h = refl
  same_leaf null h = refl
  same_leaf object h = refl
  same_leaf (bool b) h = refl
  same_leaf (int z) h = refl
  same_leaf (float n) h = refl
  same_leaf (big n) h = absurd h
  same_leaf (str s) h = refl
  same_leaf (date t) h = refl

  mutual
    unfolding serialise_bigints LacksBigint

    -- Data that holds no bigint is not changed.
    pub serialise_bigints-Lacks_same :
        (d : Data) → LacksBigint d → serialise_bigints to_string d ≡ d
    serialise_bigints-Lacks_same (leaf v) h = ap leaf (same_leaf v h)
    serialise_bigints-Lacks_same (array l) h = ap array (serialise_items-same l h)
    serialise_bigints-Lacks_same (record_of l) h = ap record_of (serialise_fields-same l h)

    serialise_items-same : (l : Items) → ItemsLackBigint l → serialise_items to_string l ≡ l
    serialise_items-same no_items h = refl
    serialise_items-same (item d l) h =
        ap (λ e. item e (serialise_items to_string l)) (serialise_bigints-Lacks_same d h.0)
        ∙ ap (item d) (serialise_items-same l h.1)

    serialise_fields-same : (l : Fields) → FieldsLackBigint l → serialise_fields to_string l ≡ l
    serialise_fields-same no_fields h = refl
    serialise_fields-same (field k d l) h =
        ap (λ e. field k e (serialise_fields to_string l)) (serialise_bigints-Lacks_same d h.0)
        ∙ ap (field k d) (serialise_fields-same l h.1)

  -- No reply holds a bigint at any depth.
  pub intercept-SendsNoBigint : (d : Data) → SendsNoBigint (intercept to_string (returned d))
  unfolding intercept
  intercept-SendsNoBigint d =
      or_null-Lacks (serialise_bigints to_string d) (serialise_bigints-Lacks d)

  -- Data that holds no bigint is sent as it is, with `null` in place of `undefined`.
  pub intercept-Lacks_same :
      (d : Data)
      → LacksBigint d
      → intercept to_string (returned d) ≡ envelope true (data_or_null d) null
  unfolding intercept
  intercept-Lacks_same d h =
      ap (λ e. envelope true (data_or_null e) null) (serialise_bigints-Lacks_same d h)

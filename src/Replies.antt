-- ===== src/Replies.antt =====
-- common/interceptors/response.interceptor.ts: the envelope of a reply, without bigints.
pub mod Bigints
use planner_api.Common.{ℕ, String, Bool, true}
use planner_api.Store.Value.{Value, undefined, null, big, str}

-- What a handler returns: an array and an object hold values again, in their order. A `leaf` is
-- anything else, a date too.
mutual
  pub data Data : Type 0 where
    leaf : Value → Data
    array : Items → Data
    record_of : Fields → Data

  pub data Items : Type 0 where
    no_items : Items
    item : Data → Items → Items

  pub data Fields : Type 0 where
    no_fields : Fields
    field : String → Data → Fields → Fields

-- `data ?? null`
abbrev pub data_or_null : Data → Data
data_or_null (leaf undefined) = leaf null
data_or_null d = d

-- A handler returns a file or data; a file is passed on.
pub data Handled : Type 0 where
  file : Handled
  returned : Data → Handled

pub data Sent : Type 0 where
  passed_on : Sent
  envelope : Bool → Data → Value → Sent

-- `to_string n` is what `bigint.toString()` gives.
module _ (to_string : ℕ → String) where
  abbrev pub serialise_leaf : Value → Value
  serialise_leaf (big n) = str (to_string n)
  serialise_leaf v = v

  -- serialiseBigInts
  unfoldable mutual
    pub serialise_bigints : Data → Data
    serialise_bigints (leaf v) = leaf (serialise_leaf v)
    serialise_bigints (array l) = array (serialise_items l)
    serialise_bigints (record_of l) = record_of (serialise_fields l)

    pub serialise_items : Items → Items
    serialise_items no_items = no_items
    serialise_items (item d l) = item (serialise_bigints d) (serialise_items l)

    pub serialise_fields : Fields → Fields
    serialise_fields no_fields = no_fields
    serialise_fields (field k d l) = field k (serialise_bigints d) (serialise_fields l)

  unfoldable pub intercept : Handled → Sent
  unfolding serialise_bigints
  intercept file = passed_on
  intercept (returned d) = envelope true (data_or_null (serialise_bigints d)) null

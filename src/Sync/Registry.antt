-- ===== src/Sync/Registry.antt =====
-- modules/sync/sync-registry.ts: the tables that replicate, and the check of one client row.
pub mod Checks
use planner_api.Common.{
  ℕ, String, ◌≡◌, Bool, true, false, not, ◌&&◌, ◌||◌, Option, none, some, List, [], ◌∷◌, map, ◌==◌,
  leb, length, filter, any, if◌then◌else◌,
}
use planner_api.Sync.Schema.{Kind, scalar, enum, relation, PrismaField, PrismaModel, PrismaSchema}
use planner_api.Common.Int.{ℤ}
use planner_api.Store.Value.{
  Value, undefined, null, object, bool, int, float, big, str, date, Row, get, is_undefined,
  is_nullish,
}
use planner_api.Store.Db.{Result, ok, err, Exception, bad_request, failure, lookup}

pub record SyncTableDef : Type 0 where
  pub name : String
  pub model : String
  pub delegate : String
  pub order : ℕ

abbrev def : String → String → String → ℕ → SyncTableDef
def name model delegate order = record {
  name = name;
  model = model;
  delegate = delegate;
  order = order;
}

abbrev pub server_owned_fields : List String
server_owned_fields = "userId" ∷ "seq" ∷ "deletedAt" ∷ "objectKey" ∷ "uploadedAt" ∷ []

abbrev pub envelope_fields : List String
envelope_fields = "id" ∷ "updatedAt" ∷ []

abbrev pub sync_tables : List SyncTableDef
sync_tables =
    def "organizations" "Organization" "organization" 10
    ∷ def "projects" "Project" "project" 20
    ∷ def "recurrence_rules" "RecurrenceRule" "recurrenceRule" 30
    ∷ def "meetings" "Meeting" "meeting" 40
    ∷ def "requirements" "Requirement" "requirement" 50
    ∷ def "tasks" "Task" "task" 60
    ∷ def "checklist_items" "ChecklistItem" "checklistItem" 70
    ∷ def "meeting_note_items" "MeetingNoteItem" "meetingNoteItem" 80
    ∷ def "notes" "Note" "note" 90
    ∷ def "decisions" "Decision" "decision" 100
    ∷ def "activity_entries" "ActivityEntry" "activityEntry" 110
    ∷ def "attachments" "Attachment" "attachment" 120
    ∷ def "voice_notes" "VoiceNote" "voiceNote" 130
    ∷ []

-- `set.has(key)`
abbrev pub includes : List String → String → Bool
includes l k = any (λ j. j == k) l

pub record FieldMeta : Type 0 where
  pub type_name : String
  pub is_enum : Bool
  pub is_required : Bool
  pub has_default : Bool
  pub enum_values : Option (List String)

pub record TableSchema : Type 0 where
  pub definition : SyncTableDef
  pub writable : List (String × FieldMeta)
  pub required_on_create : List String

abbrev is_relation : Kind → Bool
is_relation relation = true
is_relation _ = false

abbrev is_enum_kind : Kind → Bool
is_enum_kind enum = true
is_enum_kind _ = false

-- The three `continue`s of the constructor's inner loop.
abbrev pub is_writable : PrismaField → Bool
is_writable f =
    not (is_relation f.kind || f.is_list)
    && not (includes server_owned_fields f.name)
    && not (includes envelope_fields f.name)

abbrev meta_of : PrismaSchema → PrismaField → FieldMeta
meta_of s f = record {
  type_name = f.type_name;
  is_enum = is_enum_kind f.kind;
  is_required = f.is_required;
  has_default = f.has_default;
  enum_values = if is_enum_kind f.kind then lookup f.type_name s.enums else none;
}

writable_of : PrismaSchema → List PrismaField → List (String × FieldMeta)
writable_of s [] = []
writable_of s (f ∷ fs) =
    let rest = writable_of s fs in if is_writable f then (f.name, meta_of s f) ∷ rest else rest

required_of : List PrismaField → List String
required_of [] = []
required_of (f ∷ fs) =
    let rest = required_of fs in
    if is_writable f && f.is_required && not f.has_default then f.name ∷ rest else rest

abbrev table_of : PrismaSchema → SyncTableDef → List PrismaField → TableSchema
table_of s d fs = record {
  definition = d;
  writable = writable_of s fs;
  required_on_create = required_of fs;
}

add_table :
    PrismaSchema
    → SyncTableDef
    → Option PrismaModel
    → Result (List TableSchema)
    → Result (List TableSchema)
add_table s d none rest = err (failure "unknown model")
add_table s d (some model) (ok ts) = ok (table_of s d model.fields ∷ ts)
add_table s d (some model) (err e) = err e

-- The constructor of SyncRegistry over the tables to register.
unfoldable pub build : PrismaSchema → List SyncTableDef → Result (List TableSchema)
unfolding add_table writable_of required_of
build s [] = ok []
build s (d ∷ ds) = add_table s d (lookup d.model s.models) (build s ds)

-- `byName.get(name)`
abbrev pub find_table : String → List TableSchema → Option TableSchema
find_table name [] = none
find_table name (t ∷ ts) = if t.definition.name == name then some t else find_table name ts

abbrev pub get_table : List TableSchema → String → Result TableSchema
get_table ts name = elim (find_table name ts) [ some t ↦ ok t | none ↦ err (bad_request name) ]

abbrev pub enum_has : Option (List String) → String → Bool
enum_has none s = false
enum_has (some l) s = includes l s

abbrev checked_enum : FieldMeta → Value → Result Value
checked_enum m (str s) = if enum_has m.enum_values s then ok (str s) else err (bad_request "enum")
checked_enum m v = err (bad_request "enum")

abbrev checked_string : Value → Result Value
checked_string (str s) = ok (str s)
checked_string v = err (bad_request "a string")

abbrev checked_boolean : Value → Result Value
checked_boolean (bool b) = ok (bool b)
checked_boolean v = err (bad_request "a boolean")

abbrev checked_int : Value → Result Value
checked_int (int z) = ok (int z)
checked_int v = err (bad_request "an integer")

abbrev checked_float : Value → Result Value
checked_float (int z) = ok (int z)
checked_float (float x) = ok (float x)
checked_float v = err (bad_request "a number")

abbrev date_or_fail : Option ℕ → Result Value
date_or_fail none = err (bad_request "an ISO-8601 timestamp")
date_or_fail (some t) = ok (date t)

module _ (new_date : Value → Option ℕ) where
  abbrev checked_date : Value → Result Value
  checked_date (date t) = ok (date t)
  checked_date (str s) = date_or_fail (new_date (str s))
  checked_date (int z) = date_or_fail (new_date (int z))
  checked_date (float x) = date_or_fail (new_date (float x))
  checked_date v = err (bad_request "an ISO-8601 timestamp")

  abbrev checked_scalar : String → Value → Result Value
  checked_scalar type_name v =
      if type_name == "String"
      then checked_string v
      else if type_name == "Boolean"
      then checked_boolean v
      else if type_name == "Int"
      then checked_int v
      else if type_name == "Float"
      then checked_float v
      else if type_name == "DateTime"
      then checked_date v
      else err (bad_request type_name)

  unfoldable pub coerce_value : FieldMeta → Value → Result Value
  coerce_value m v =
      if is_nullish v
      then (if m.is_required then err (bad_request "may not be null") else ok null)
      else if m.is_enum
      then checked_enum m v
      else checked_scalar m.type_name v

  abbrev add_field : String → Result Value → Result Row → Result Row
  add_field k (err e) rest = err e
  add_field k (ok w) (err e) = err e
  add_field k (ok w) (ok r) = ok ((k, w) ∷ r)

  abbrev check_field : Option FieldMeta → String → Value → Result Row → Result Row
  check_field none k v rest = err (bad_request k)
  check_field (some m) k v rest = add_field k (coerce_value m v) rest

  -- The loop over `Object.entries(input)`.
  unfoldable pub coerce_entries : TableSchema → Row → Result Row
  coerce_entries t [] = ok []
  coerce_entries t ((k, v) ∷ input) =
      let rest = coerce_entries t input in
      if includes server_owned_fields k || includes envelope_fields k
      then rest
      else check_field (lookup k t.writable) k v rest

  abbrev require_all : List String → Bool → Row → Result Row
  require_all required for_create out =
      if for_create && any (λ f. is_undefined (get f out)) required
      then err (bad_request "Missing required field(s)")
      else ok out

  abbrev finish : List String → Bool → Result Row → Result Row
  finish required for_create (err e) = err e
  finish required for_create (ok out) = require_all required for_create out

  unfoldable pub coerce : TableSchema → Row → Bool → Result Row
  coerce t input for_create = finish t.required_on_create for_create (coerce_entries t input)

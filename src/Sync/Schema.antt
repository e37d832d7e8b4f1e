-- ===== src/Sync/Schema.antt =====
-- modules/sync/prisma-schema.ts: the reader of the Prisma schema file, from which the tables that
-- replicate take their columns. `^`, `\w`, `\s` and the other parts of the source's regular
-- expressions are functions on texts.
pub mod Neat
pub mod Lines
pub mod Models
pub mod Blocks
use planner_api.Common.{
  ℕ, suc, zero, ◌+◌, String, Bool, true, false, not, ◌&&◌, ◌||◌, Option, none, some, List, [], ◌∷◌,
  ◌++◌, map, ◌==◌, filter, if◌then◌else◌,
}
use Prim.Native.Char.{Char}
use Prim.Native.String as Text
use planner_api.Common.Texts.{split_at, trim, trim_start, has_letter, strip, is_white}
use planner_api.Common.Scan.{
  present, is_word, span, word, nonempty, after_white, optional, is_terminator, whole_line, ◌>>=◌,
  includes_text, quoted, size,
}
use planner_api.Store.Db.{lookup, put_entry}

pub data Kind : Type 0 where
  scalar enum relation : Kind

pub record PrismaField : Type 0 where
  pub name : String
  pub db_name : String
  pub type_name : String
  pub kind : Kind
  pub is_required : Bool
  pub is_list : Bool
  pub has_default : Bool

pub record PrismaModel : Type 0 where
  pub name : String
  pub db_name : String
  pub fields : List PrismaField

pub record PrismaSchema : Type 0 where
  pub models : List (String × PrismaModel)
  pub enums : List (String × List String)

-- Name, type, `[]`, `?` and attributes of a field's line.
pub record FieldLine : Type 0 where
  pub name : String
  pub type_name : String
  pub list : Bool
  pub question : Bool
  pub attributes : String

abbrev pub line_of : String → String → Bool × String → Option FieldLine
line_of name type_name (list, s) =
    let (question, t) = optional "?" s in
    whole_line (trim_start t) >>= (λ attributes. some (record {
      name = name;
      type_name = type_name;
      list = list;
      question = question;
      attributes = attributes;
    }))

abbrev pub after_type : String → String × String → Option FieldLine
after_type name (type_name, s) = line_of name type_name (optional "[]" s)

abbrev pub type_after : String → String → Option FieldLine
type_after name s = word s >>= after_type name

abbrev pub after_name : String × String → Option FieldLine
after_name (name, s) = after_white s >>= type_after name

-- `/^(\w+)\s+(\w+)(\[\])?(\?)?\s*(.*)$/.exec(line)`
unfoldable pub field_line : String → Option FieldLine
unfolding span is_word trim_start strip has_letter
field_line line = word line >>= after_name

-- `value ?? other`
abbrev pub or_else : Option String → String → String
or_else none other = other
or_else (some value) other = value

abbrev pub comment : String → Bool
comment line = present (strip "//" line)

abbrev pub is_kept_line : String → Bool
is_kept_line line = not (line == "") && not (comment line)

-- `blockLines`
unfoldable pub block_lines : String → List String
unfolding split_at trim strip
block_lines body = filter is_kept_line (map trim (split_at "\n" body))

abbrev pub has_key : {A : Type 0} → String → List (String × A) → Bool
has_key k l = present (lookup k l)

abbrev pub field_of : List (String × String) → List (String × List String) → FieldLine → PrismaField
field_of bodies enums l =
    let is_model = has_key l.type_name bodies in
    record {
      name = l.name;
      db_name = or_else (quoted "@map(\"" l.attributes) l.name;
      type_name = l.type_name;
      kind =
          if is_model && (l.list || includes_text "@relation" l.attributes)
          then relation
          else if has_key l.type_name enums
          then enum
          else if is_model
          then relation
          else scalar;
      is_required = not l.question && not l.list;
      is_list = l.list;
      has_default =
          includes_text "@default(" l.attributes || includes_text "@updatedAt" l.attributes;
    }

-- What the loop over a model's lines has read so far.
abbrev pub Reading : Type 0
Reading = String × List PrismaField

module _ (bodies : List (String × String)) (enums : List (String × List String)) where
  -- By whether the line begins with `@@`, and by what it is as a field's line.
  abbrev pub add_read : String → Bool → Option FieldLine → Reading → Reading
  add_read line true o (db_name, fields) = (or_else (quoted "@@map(\"" line) db_name, fields)
  add_read line false none r = r
  add_read line false (some l) (db_name, fields) =
      (db_name, fields ++ (field_of bodies enums l ∷ []))

  abbrev pub add_line : String → Reading → Reading
  add_line line = add_read line (present (strip "@@" line)) (field_line line)

-- The loop over a model's lines.
unfoldable pub read_lines :
    List (String × String) → List (String × List String) → List String → Reading → Reading
unfolding strip field_line quoted includes_text
read_lines bodies enums [] r = r
read_lines bodies enums (line ∷ lines) r =
    read_lines bodies enums lines (add_line bodies enums line r)

-- `\s*\{([^}]*)\}` after a block's name: its body, and what follows it.
abbrev body_of : String → Option (String × String)
body_of s = do
  t ← strip "{" (trim_start s)
  let (body, u) = span (λ c. not (Text.◌∷◌ c "" == "}")) t
  v ← strip "}" u
  some (body, v)

abbrev named_body : String → String → Option (String × String × String)
named_body name s = body_of s >>= (λ (body, rest). some (name, body, rest))

-- `^keyword\s+(\w+)\s*\{([^}]*)\}` at the beginning of a text: name, body and what follows them.
unfoldable pub block_at : String → String → Option (String × String × String)
unfolding strip span is_word trim_start has_letter
block_at keyword s = do
  t ← strip keyword s
  u ← after_white t
  (name, v) ← word u
  named_body name v

-- A place in the file: whether a line begins there, and the text from there.
abbrev pub Place : Type 0
Place = Bool × String

abbrev pub Block : Type 0
Block = String × String

-- One letter further.
abbrev pub advance : String → Option (Option Block × Place)
advance Text.[] = none
advance (Text.◌∷◌ c s) = some (none, (is_terminator c, s))

-- At one place: the end, or the block that is there, if any, and the next place to look at.
abbrev pub look : String → Place → Option (Option Block × Place)
look keyword (false, s) = advance s
look keyword (true, s) = elim (block_at keyword s) [
  | none ↦ advance s
  | some (name, body, rest) ↦ some (some (name, body), (false, rest))
]

abbrev pub add_block : Option Block → Option (List Block) → Option (List Block)
add_block b none = none
add_block none (some l) = some l
add_block (some b) (some l) = some (b ∷ l)

-- The search of `matchAll`; `none` when the fuel is spent.
unfoldable pub blocks : ℕ → String → Place → Option (List Block)
unfolding block_at has_letter
blocks zero keyword place = none
blocks (suc fuel) keyword place = elim (look keyword place) [
  | none ↦ some []
  | some (b, next) ↦ add_block b (blocks fuel keyword next)
]

-- `source.matchAll(/^keyword\s+(\w+)\s*\{([^}]*)\}/gms)`
unfoldable pub match_all : String → String → Option (List Block)
unfolding blocks size
match_all keyword source = blocks (size source + 1) keyword (true, source)

abbrev all_word : String → Bool
all_word s = elim (word s) [ none ↦ false | some (w, rest) ↦ rest == "" ]

-- `map.set` for each block, in their order.
abbrev pub set_all :
    {A : Type 0} → (String → String → A) → List Block → List (String × A) → List (String × A)
set_all f [] l = l
set_all f ((name, body) ∷ blocks) l = set_all f blocks (put_entry name (f name body) l)

unfoldable pub enum_values : String → List String
unfolding block_lines span is_word has_letter
enum_values body = filter all_word (block_lines body)

abbrev pub model_read : String → Reading → PrismaModel
model_read name (db_name, fields) = record { name = name; db_name = db_name; fields = fields }

unfoldable pub model_of :
    List (String × String) → List (String × List String) → String → String → PrismaModel
unfolding read_lines block_lines
model_of bodies enums name body =
    model_read name (read_lines bodies enums (block_lines body) (name, []))

abbrev pub schema_of : List (String × List String) → List (String × String) → PrismaSchema
schema_of enums bodies = record {
  models = set_all (model_of bodies enums) bodies [];
  enums = enums;
}

-- `parsePrismaSchema`; `none` would be a spent fuel.
unfoldable pub parse_prisma_schema : String → Option PrismaSchema
unfolding match_all enum_values model_of
parse_prisma_schema source = do
  found ← match_all "enum" source
  bodies ← match_all "model" source
  some (
      schema_of (set_all (λ name body. enum_values body) found [])
        (set_all (λ name body. body) bodies []))

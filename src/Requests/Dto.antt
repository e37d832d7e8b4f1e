-- ===== src/Requests/Dto.antt =====
-- The classes of request bodies and queries as they are declared: fields with the decorators of
-- class-validator and class-transformer, `extends` and `PartialType`.
use planner_api.Common.{ℕ, String, Bool, List, ◌∷◌, ◌++◌, ◌==◌, map, any}
use planner_api.Store.Value.{Value, undefined}

-- A decorator; `type_of` is the class given to `@Type`, `listed` the `@Transform` that puts a single
-- value in an array.
pub data Rule : Type 0 where
  is_optional is_string is_not_empty is_uuid is_boolean is_int is_date_string : Rule
  is_array is_object validate_nested validate_each listed : Rule
  max_length min max array_max_size : ℕ → Rule
  is_enum is_enum_each type_of : String → Rule
  is_in : List String → Rule

-- A field with its decorators and its initializer.
pub record Field : Type 0 where
  pub name : String
  pub rules : List Rule
  pub initial : Value

abbrev pub field : String → List Rule → Field
field name rules = record { name = name; rules = rules; initial = undefined }

abbrev pub field_or : String → List Rule → Value → Field
field_or name rules initial = record { name = name; rules = rules; initial = initial }

-- A class: `class`, `class extends C` or `class extends PartialType(C)`.
pub data Dto : Type 0 where
  object : List Field → Dto
  extending : Dto → List Field → Dto
  partial : Dto → List Field → Dto

abbrev optional_field : Field → Field
optional_field f = record f { rules = is_optional ∷ f.rules; initial = undefined }

-- The fields of a class. `PartialType` takes over all fields of its argument as optional ones.
unfoldable pub fields : Dto → List Field
fields (object l) = l
fields (extending d l) = fields d ++ l
fields (partial d l) = map optional_field (fields d) ++ l

-- The class declares the field.
abbrev pub declares : Dto → String → Bool
declares d name = any (λ f. f.name == name) (fields d)

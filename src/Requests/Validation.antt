-- ===== src/Requests/Validation.antt =====
-- The ValidationPipe of src/main.ts, `whitelist` and `transform` on, and ParseUUIDPipe: they are
-- NestJS's and class-validator's, so parameters.
use planner_api.Common.{
  ℕ, String, ◌≡◌, Bool, true, false, not, ◌&&◌, Option, none, some, List, [], ◌∷◌, ◌==◌, leb, any,
  filter, if◌then◌else◌,
}
use planner_api.Common.Int.{ℤ, pos, negsuc}
use planner_api.Store.Value.{Value, undefined, null, bool, int, str, Row, get, has, is_nullish}
use planner_api.Store.Db.{Result, ok, bad_request}
use planner_api.Store.Action.{Action, pure, throw, lift, ◌>>=◌}
use planner_api.Requests.Dto.{
  Rule, is_optional, is_string, is_not_empty, is_boolean, is_int, min, max, Field, Dto, fields,
  declares,
}

-- What the pipe makes of a body for the class of the handler's parameter, and whether a text is a
-- UUID.
pub record Pipe : Type 0 where
  pub transform : Dto → Row → Result Row
  pub is_uuid : String → Bool

abbrev optional_rule : Rule → Bool
optional_rule is_optional = true
optional_rule _ = false

abbrev at_least : ℕ → ℤ → Bool
at_least n (pos z) = leb n z
at_least n (negsuc z) = false

abbrev at_most : ℕ → ℤ → Bool
at_most n (pos z) = leb z n
at_most n (negsuc z) = true

abbrev is_text : Value → Bool
is_text (str s) = true
is_text _ = false

abbrev is_truth : Value → Bool
is_truth (bool b) = true
is_truth _ = false

abbrev is_integer : Value → Bool
is_integer (int z) = true
is_integer _ = false

abbrev integer_obeys : (ℤ → Bool) → Value → Bool
integer_obeys p (int z) = p z
integer_obeys p _ = false

abbrev not_blank : Value → Bool
not_blank undefined = false
not_blank null = false
not_blank (str s) = not (s == "")
not_blank _ = true

-- What class-validator documents of a decorator, of those that the theorems use.
abbrev obeys : Rule → Value → Bool
obeys is_string v = is_text v
obeys is_not_empty v = not_blank v
obeys is_boolean v = is_truth v
obeys is_int v = is_integer v
obeys (min n) v = integer_obeys (at_least n) v
obeys (max n) v = integer_obeys (at_most n) v
obeys _ v = true

-- `@IsOptional()` passes over null and undefined.
abbrev pub passes : List Rule → Value → Bool
passes rules v =
    if any optional_rule rules && is_nullish v then true else not (any (λ r. not (obeys r v)) rules)

abbrev pub rules_in : String → List Field → List Rule
rules_in name [] = []
rules_in name (f ∷ fs) = if f.name == name then f.rules else rules_in name fs

abbrev pub rules_of : Dto → String → List Rule
rules_of d name = rules_in name (fields d)

-- What is documented of the pipe: of a body that it lets through it keeps the fields that the class
-- declares (`whitelist`), and each of them obeys its decorators.
pub record Validates (pipe : Pipe) : Type 0 where
  pub whitelisted :
      (d : Dto) (body out : Row)
      → pipe.transform d body ≡ ok out
      → (k : String) → declares d k ≡ false
      → has k out ≡ false
  pub checked :
      (d : Dto) (body out : Row)
      → pipe.transform d body ≡ ok out
      → (k : String) → passes (rules_of d k) (get k out) ≡ true

module _ (pipe : Pipe) where
  unfoldable pub validated : Dto → Row → Action Row
  validated d body = lift (pipe.transform d body)

  -- A nested object under `@ValidateNested`, checked against its own class.
  unfoldable pub validated_nested : Dto → Option Row → Action (Option Row)
  unfolding validated
  validated_nested d none = pure none
  validated_nested d (some body) = do dto ← validated d body; pure (some dto)

  -- `@Param(…, ParseUUIDPipe)`
  unfoldable pub uuid_param : String → Action (Unit {0})
  uuid_param id =
      if pipe.is_uuid id
      then pure tt
      else throw (bad_request "Validation failed (uuid is expected)")

-- `const { [name]: _, ...rest } = row`
abbrev pub without : String → Row → Row
without name row = filter (λ e. not (e.0 == name)) row

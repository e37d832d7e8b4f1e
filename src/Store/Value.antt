-- ===== src/Store/Value.antt =====
-- The values of `Record<string, unknown>` rows and DTOs, and the rows themselves. `{...a, ...b}` is
-- `spread a b`: what comes later wins, so it stands in front.
use planner_api.Common.{
  arith, ℕ, String, ◌≡◌, refl, Bool, true, false, not, List, [], ◌∷◌, ◌++◌, ◌==◌, eqb, ltb,
  if◌then◌else◌,
}
use planner_api.Common.Int.{ℤ, pos, negsuc}

-- A `date` is an instant in milliseconds, a `float` a number that is no integer, by its bits; an
-- `object` is an array or an object.
pub data Value : Type 0 where
  undefined null object : Value
  bool : Bool → Value
  int : ℤ → Value
  float : ℕ → Value
  big : ℕ → Value
  str : String → Value
  date : ℕ → Value

abbrev pub Row : Type 0
Row = List (String × Value)

-- `row[key]`
abbrev pub get : String → Row → Value
get k [] = undefined
get k ((j, v) ∷ r) = if j == k then v else get k r

-- `key in row`
abbrev pub has : String → Row → Bool
has k [] = false
has k ((j, v) ∷ r) = if j == k then true else has k r

-- `{...a, ...b}`
abbrev pub spread : Row → Row → Row
spread a b = b ++ a

-- `value === undefined`
abbrev pub is_undefined : Value → Bool
is_undefined undefined = true
is_undefined _ = false

-- `value === null || value === undefined`
abbrev pub is_nullish : Value → Bool
is_nullish undefined = true
is_nullish null = true
is_nullish _ = false

-- `a ?? b`
abbrev pub or_else : Value → Value → Value
or_else undefined b = b
or_else null b = b
or_else a b = a

abbrev is_zero : ℤ → Bool
is_zero (pos n) = eqb n 0
is_zero (negsuc n) = false

-- `!!value`
abbrev pub truthy : Value → Bool
truthy undefined = false
truthy null = false
truthy (bool b) = b
truthy (int z) = not (is_zero z)
truthy (big n) = ltb 0 n
truthy (str s) = not (s == "")
truthy _ = true

-- The text of a value that the schema declares a `String`.
abbrev pub text : Value → String
text (str s) = s
text _ = ""

-- The number of a value that the schema declares a `BigInt`.
abbrev pub number : Value → ℕ
number (big n) = n
number _ = 0

-- The instant of a value that the schema declares a `DateTime`.
abbrev pub instant : Value → ℕ
instant (date t) = t
instant _ = 0

abbrev pub id_of : Row → String
id_of r = text (get "id" r)

abbrev pub owner : Row → String
owner r = text (get "userId" r)

abbrev pub seq_of : Row → ℕ
seq_of r = number (get "seq" r)

pub get-append : (k : String) (a b : Row) → get k (a ++ b) ≡ (if has k a then get k a else get k b)
get-append k [] b = refl
get-append k ((j, v) ∷ a) b = ground (arith, get-append k a b)

-- ===== src/Origins.antt =====
-- config/cors.ts: which origins may call the API. An entry of the list is an exact origin, or a
-- pattern whose `*`s stand for a part of a host.
pub mod Parts
pub mod Patterns
pub mod Boundaries
use Prim.Native.Char.{Char}
use Prim.Native.String as Text
use planner_api.Common.{
  String, Bool, true, false, not, ◌||◌, Option, none, some, List, [], ◌∷◌, map, ◌==◌, filter, any,
  if◌then◌else◌,
}
use planner_api.Common.Texts.{split_at, trim, has_letter, strip}

abbrev or_empty : Option String → String
or_empty none = ""
or_empty (some s) = s

-- `parseAllowedOrigins`
unfoldable pub parse_allowed_origins : Option String → List String
unfolding split_at trim
parse_allowed_origins value =
    filter (λ origin. not (origin == "")) (map trim (split_at "," (or_empty value)))

-- The letters that `[^/:]` leaves out.
abbrev pub is_boundary : Char → Bool
is_boundary c = let l = Text.◌∷◌ c "" in (l == "/") || (l == ":")

-- `[^/:]+`, and what follows it in the expression.
unfoldable pub after_star : (String → Bool) → String → Bool
after_star next Text.[] = false
after_star next (Text.◌∷◌ c s) =
    let longer = after_star next s in if is_boundary c then false else next s || longer

abbrev pub left : (String → Bool) → Option String → Bool
left next none = false
left next (some rest) = next rest

-- The test of `^part[^/:]+part...$`, the literal parts escaped.
unfoldable pub test_parts : List String → String → Bool
unfolding strip after_star
test_parts [] s = s == ""
test_parts (part ∷ []) s = left (λ rest. rest == "") (strip part s)
test_parts (part ∷ next ∷ parts) s = left (after_star (test_parts (next ∷ parts))) (strip part s)

-- `pattern.test(origin)` for the pattern of an entry.
unfoldable pub test_pattern : String → String → Bool
unfolding split_at test_parts
test_pattern entry origin = test_parts (split_at "*" entry) origin

abbrev pub exact : List String → List String
exact allowed = filter (λ entry. not (has_letter "*" entry)) allowed

abbrev pub patterns : List String → List String
patterns allowed = filter (has_letter "*") allowed

-- `originMatcher`
unfoldable pub origin_matcher : List String → Option String → Bool
unfolding test_pattern has_letter
origin_matcher allowed none = true
origin_matcher allowed (some origin) =
    if origin == ""
    then true
    else if any (λ entry. entry == origin) (exact allowed)
    then true
    else any (λ entry. test_pattern entry origin) (patterns allowed)

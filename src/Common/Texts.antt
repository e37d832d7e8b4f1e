-- ===== src/Common/Texts.antt =====
-- Texts cut in parts, and trimmed.
use Prim.Native.Char.{Char}
use Prim.Native.String as Text
use Prim.Native.String.{String}
use mathlib.Core.Bool.{Bool, true, false}
use mathlib.Core.Option.{Option, none, some}
use mathlib.Core.List.{List, [], ◌∷◌}
use text.Mathlib.Text.{◌==◌}
use planner_api.Common.Lists.{any}
use planner_api.Common.Tests.{if◌then◌else◌}

-- The text goes in front of the first part.
abbrev pub onto_first : String → List String → List String
onto_first c [] = c ∷ []
onto_first c (part ∷ parts) = Text.◌++◌ c part ∷ parts

-- `text.split(separator)`, for a separator of one letter.
unfoldable pub split_at : String → String → List String
split_at separator Text.[] = "" ∷ []
split_at separator (Text.◌∷◌ c s) =
    let rest = split_at separator s in
    let letter = Text.◌∷◌ c "" in if letter == separator then "" ∷ rest else onto_first letter rest

-- What `trim` takes off.
abbrev pub white_space : List String
white_space =
    " " ∷ "\t" ∷ "\n" ∷ "\u{b}" ∷ "\u{c}" ∷ "\r" ∷ "\u{a0}" ∷ "\u{1680}" ∷ "\u{2000}" ∷ "\u{2001}"
    ∷ "\u{2002}" ∷ "\u{2003}" ∷ "\u{2004}" ∷ "\u{2005}" ∷ "\u{2006}" ∷ "\u{2007}" ∷ "\u{2008}"
    ∷ "\u{2009}" ∷ "\u{200a}" ∷ "\u{2028}" ∷ "\u{2029}" ∷ "\u{202f}" ∷ "\u{205f}" ∷ "\u{3000}"
    ∷ "\u{feff}" ∷ []

unfoldable pub is_white : Char → Bool
is_white c = any (λ w. w == Text.◌∷◌ c "") white_space

-- `text.trimStart()`
unfoldable pub trim_start : String → String
unfolding is_white
trim_start Text.[] = ""
trim_start (Text.◌∷◌ c s) = let rest = trim_start s in if is_white c then rest else Text.◌∷◌ c s

-- `text.trimEnd()`: a letter stays if it is no white space or one after it stays.
unfoldable pub trim_end : String → String
unfolding is_white
trim_end Text.[] = ""
trim_end (Text.◌∷◌ c s) =
    let rest = trim_end s in
    if is_white c then (if rest == "" then "" else Text.◌∷◌ c rest) else Text.◌∷◌ c rest

-- `text.trim()`
unfoldable pub trim : String → String
unfolding trim_start trim_end
trim s = trim_end (trim_start s)

-- `text.includes(letter)`, for one letter.
unfoldable pub has_letter : String → String → Bool
has_letter letter Text.[] = false
has_letter letter (Text.◌∷◌ c s) =
    let rest = has_letter letter s in if Text.◌∷◌ c "" == letter then true else rest

-- A literal of a regular expression: what is left of the text after it.
unfoldable pub strip : String → String → Option String
strip Text.[] s = some s
strip (Text.◌∷◌ c p) Text.[] = none
strip (Text.◌∷◌ c p) (Text.◌∷◌ d s) =
    let rest = strip p s in if Text.◌∷◌ c "" == Text.◌∷◌ d "" then rest else none

-- ===== src/Common/Scan.antt =====
-- The parts of regular expressions that the sources use, as functions on texts.
use Prim.Native.Char.{Char}
use Prim.Native.String as Text
use Prim.Native.String.{String}
use Prim.Native.Nat.{ℕ, suc}
use mathlib.Core.Bool.{Bool, true, false, not}
use mathlib.Core.Option.{Option, none, some}
use text.Mathlib.Text.{◌==◌}
use planner_api.Common.Tests.{if◌then◌else◌}
use planner_api.Common.Texts.{has_letter, strip, is_white, trim_start}

abbrev pub word_letters : String
word_letters = "abcdefghijklmnopqrstuvwxyzABCDEFGHIJKLMNOPQRSTUVWXYZ0123456789_"

-- `\w`
unfoldable pub is_word : Char → Bool
unfolding has_letter
is_word c = has_letter (Text.◌∷◌ c "") word_letters

-- The longest beginning whose letters pass, and the rest.
unfoldable pub span : (Char → Bool) → String → String × String
span p Text.[] = ("", "")
span p (Text.◌∷◌ c s) =
    let (a, b) = span p s in if p c then (Text.◌∷◌ c a, b) else ("", Text.◌∷◌ c s)

abbrev pub nonempty : String × String → Option (String × String)
nonempty (a, b) = if a == "" then none else some (a, b)

-- `(\w+)`
abbrev pub word : String → Option (String × String)
word s = nonempty (span is_word s)

-- `\s+`, and what follows it.
abbrev pub after_white : String → Option String
after_white Text.[] = none
after_white (Text.◌∷◌ c s) = if is_white c then some (trim_start s) else none

abbrev pub present : {A : Type 0} → Option A → Bool
present none = false
present (some a) = true

abbrev pub taken : String → Option String → Bool × String
taken s none = (false, s)
taken s (some rest) = (true, rest)

-- `(part)?`
abbrev pub optional : String → String → Bool × String
optional part s = taken s (strip part s)

abbrev pub is_terminator : Char → Bool
is_terminator c = has_letter (Text.◌∷◌ c "") "\n\r\u{2028}\u{2029}"

abbrev pub if_whole : String × String → Option String
if_whole (line, rest) = if rest == "" then some line else none

-- `(.*)$`
abbrev pub whole_line : String → Option String
whole_line s = if_whole (span (λ c. not (is_terminator c)) s)

infixl 2 ◌>>=◌
abbrev pub ◌>>=◌ : {A B : Type 0} → Option A → (A → Option B) → Option B
none >>= f = none
some a >>= f = f a

-- `text.includes(part)`
unfoldable pub includes_text : String → String → Bool
unfolding strip
includes_text part Text.[] = part == ""
includes_text part (Text.◌∷◌ c s) =
    let later = includes_text part s in
    elim (strip part (Text.◌∷◌ c s)) [ none ↦ later | some rest ↦ true ]

abbrev pub before_quote : String → Option (String × String)
before_quote s = nonempty (span (λ c. not (Text.◌∷◌ c "" == "\"")) s)

abbrev pub closed : String × String → Option String
closed (value, s) = strip "\")" s >>= (λ rest. some value)

-- `marker([^"]+)"\)` at the beginning of a text.
abbrev pub quoted_at : String → String → Option String
quoted_at marker s = strip marker s >>= (λ t. before_quote t >>= closed)

-- The first result that is one.
abbrev pub first : {A : Type 0} → Option A → Option A → Option A
first none o = o
first (some a) o = some a

-- `/marker([^"]+)"\)/.exec(text)?.[1]`
unfoldable pub quoted : String → String → Option String
unfolding strip span
quoted marker Text.[] = quoted_at marker ""
quoted marker (Text.◌∷◌ c s) =
    let later = quoted marker s in first (quoted_at marker (Text.◌∷◌ c s)) later

-- The number of letters.
unfoldable pub size : String → ℕ
size Text.[] = 0
size (Text.◌∷◌ c s) = suc (size s)

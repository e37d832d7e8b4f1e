-- ===== src/Common/Split.antt =====
-- Letters of a text: words, spans and lines that lack a separator.
use Prim.Native.Char.{Char}
use Prim.Native.String as Text
use Prim.Native.String.{String, ◌++◌}
use mathlib.Core.Path.{◌≡◌, refl, ap, ◌∙◌}
use mathlib.Core.Bool.{Bool, true, false}
use mathlib.Core.List.{[], ◌∷◌}
use mathlib.Core.Logic.{inl, inr}
use text.Mathlib.Text.{◌==◌}
use text.Mathlib.TextEquality.{eq_iff}
use text.Mathlib.TextPositions.{eq_refl}
use planner_api.Common.Tests.{Bool-cases}
use planner_api.Common.Texts.{split_at, trim_start, trim_end, is_white}
use planner_api.Common.Scan.{span}
use text.Mathlib.TextLemmas.{cons-append, nil-append, cons≢nil}

pub not_empty : (c : Char) (s : String) → (Text.◌∷◌ c s == "") ≡ false
not_empty c s = elim (Bool-cases (Text.◌∷◌ c s == "")) [
  | inl e ↦ absurd (cons≢nil ((eq_iff (Text.◌∷◌ c s) "").0 e))
  | inr e ↦ e
]

-- Every letter passes.
abbrev pub Letters : (Char → Bool) → String → Type 0
Letters p Text.[] = Unit
Letters p (Text.◌∷◌ c s) = (p c ≡ true) × Letters p s

-- The first letter, if any, does not pass.
abbrev pub StartsOff : (Char → Bool) → String → Type 0
StartsOff p Text.[] = Unit
StartsOff p (Text.◌∷◌ c s) = p c ≡ false

-- The last letter, if any, does not pass.
abbrev pub EndsOff : (Char → Bool) → String → Type 0
EndsOff p Text.[] = Unit
EndsOff p (Text.◌∷◌ c Text.[]) = p c ≡ false
EndsOff p (Text.◌∷◌ c (Text.◌∷◌ d s)) = EndsOff p (Text.◌∷◌ d s)

-- No letter is the separator.
abbrev pub Lacks : String → String → Type 0
Lacks separator Text.[] = Unit
Lacks separator (Text.◌∷◌ c s) = ((Text.◌∷◌ c "" == separator) ≡ false) × Lacks separator s

pub one_letter : (c : Char) (s : String) → Text.◌∷◌ c "" ++ s ≡ Text.◌∷◌ c s
one_letter c s = cons-append c "" s ∙ ap (Text.◌∷◌ c) (nil-append s)

pub split_at-Lacks : (separator s : String) → Lacks separator s → split_at separator s ≡ s ∷ []
unfolding split_at
split_at-Lacks separator Text.[] h = refl
split_at-Lacks separator (Text.◌∷◌ c s) (h, rest) =
    rw h (rw (split_at-Lacks separator s rest) (ap (λ x. x ∷ []) (one_letter c s)))

pub split_at-append :
    (c : Char) (a b : String)
    → Lacks (Text.◌∷◌ c "") a
    → split_at (Text.◌∷◌ c "") (a ++ Text.◌∷◌ c b) ≡ a ∷ split_at (Text.◌∷◌ c "") b
unfolding split_at
split_at-append c Text.[] b h = rw (nil-append (Text.◌∷◌ c b)) (rw (eq_refl (Text.◌∷◌ c "")) refl)
split_at-append c (Text.◌∷◌ d a) b (h, rest) = rw (cons-append d a (Text.◌∷◌ c b)) (
    rw h
      (rw (split_at-append c a b rest) (ap (λ x. x ∷ split_at (Text.◌∷◌ c "") b) (one_letter d a))))

pub span-append :
    (p : Char → Bool) (w s : String) → Letters p w → StartsOff p s → span p (w ++ s) ≡ (w, s)
unfolding span
span-append p Text.[] Text.[] h off = rw (nil-append "") refl
span-append p Text.[] (Text.◌∷◌ d s) h off = rw (nil-append (Text.◌∷◌ d s)) (rw off refl)
span-append p (Text.◌∷◌ c w) s (h, rest) off =
    rw (cons-append c w s) (rw h (rw (span-append p w s rest off) refl))

pub trim_start-StartsOff : (s : String) → StartsOff is_white s → trim_start s ≡ s
unfolding trim_start
trim_start-StartsOff Text.[] h = refl
trim_start-StartsOff (Text.◌∷◌ c s) h = rw h refl

pub trim_end-EndsOff : (s : String) → EndsOff is_white s → trim_end s ≡ s
unfolding trim_end
trim_end-EndsOff Text.[] h = refl
trim_end-EndsOff (Text.◌∷◌ c Text.[]) h = rw h refl
trim_end-EndsOff (Text.◌∷◌ c (Text.◌∷◌ d s)) h =
    let rest = trim_end-EndsOff (Text.◌∷◌ d s) h in
    elim (Bool-cases (is_white c)) [
      | inl y ↦ rw y (rw rest (rw (not_empty d s) refl))
      | inr n ↦ rw n (ap (Text.◌∷◌ c) rest)
    ]

pub EndsOff-append :
    (p : Char → Bool) (a b : String) → EndsOff p a → EndsOff p b → EndsOff p (a ++ b)
EndsOff-append p Text.[] b h k = rw (nil-append b) k
EndsOff-append p (Text.◌∷◌ c Text.[]) Text.[] h k = rw (one_letter c "") h
EndsOff-append p (Text.◌∷◌ c Text.[]) (Text.◌∷◌ d b) h k = rw (one_letter c (Text.◌∷◌ d b)) k
EndsOff-append p (Text.◌∷◌ c (Text.◌∷◌ d a)) b h k =
    let rest = EndsOff-append p (Text.◌∷◌ d a) b h k in
    rw (cons-append c (Text.◌∷◌ d a) b) (rw (cons-append d a b) (rw (cons-append d a b) at rest))

pub Lacks-append :
    (separator a b : String) → Lacks separator a → Lacks separator b → Lacks separator (a ++ b)
Lacks-append separator Text.[] b h k = rw (nil-append b) k
Lacks-append separator (Text.◌∷◌ c a) b (h, rest) k =
    rw (cons-append c a b) (h, Lacks-append separator a b rest k)

pub EndsOff-last :
    (p : Char → Bool) (a b : String) (c : Char)
    → EndsOff p (Text.◌∷◌ c b)
    → EndsOff p (a ++ Text.◌∷◌ c b)
EndsOff-last p Text.[] b c h = rw (nil-append (Text.◌∷◌ c b)) h
EndsOff-last p (Text.◌∷◌ d Text.[]) b c h = rw (one_letter d (Text.◌∷◌ c b)) h
EndsOff-last p (Text.◌∷◌ d (Text.◌∷◌ e a)) b c h =
    let rest = EndsOff-last p (Text.◌∷◌ e a) b c h in
    rw (cons-append d (Text.◌∷◌ e a) (Text.◌∷◌ c b))
      (rw (cons-append e a (Text.◌∷◌ c b)) (rw (cons-append e a (Text.◌∷◌ c b)) at rest))

-- ===== src/Origins/Patterns.antt =====
-- The test of an origin against an entry, compared with what a pattern means.
use Prim.Native.String as Text
use Prim.Native.String.{◌++◌}
use planner_api.Common.{
  String, ◌≡◌, refl, ap, sym, ◌∙◌, ◌↔◌, inl, inr, Bool, true, false, not, Option, none, some, List,
  [], ◌∷◌, ◌==◌, any, filter, if◌then◌else◌, Occurs, Bool-cases, eq_iff,
}
use planner_api.Common.Texts.{split_at, has_letter}
use planner_api.Origins.{test_pattern, exact, patterns, origin_matcher}
use mathlib.Core.Path.{subst}
use text.Mathlib.TextLemmas.{cons-append, nil-append}
use planner_api.Origins.Parts.{Fits, Allows, test_parts-Fits, Fits-test_parts}

-- An entry without a `*` is one part.
split_at-exact : (entry : String) → has_letter "*" entry ≡ false → split_at "*" entry ≡ entry ∷ []
unfolding split_at has_letter
split_at-exact Text.[] h = refl
split_at-exact (Text.◌∷◌ c s) h = go (Text.◌∷◌ c "" == "*") refl h (split_at-exact s)
  where
    go :
        (b : Bool)
        → (Text.◌∷◌ c "" == "*") ≡ b
        → (if b then true else has_letter "*" s) ≡ false
        → (has_letter "*" s ≡ false → split_at "*" s ≡ s ∷ [])
        → split_at "*" (Text.◌∷◌ c s) ≡ Text.◌∷◌ c s ∷ []
    go true star k rec = cc
    go false other k rec =
        rw other
          (rw (rec k) (ap (λ x. x ∷ []) (cons-append c "" s ∙ ap (Text.◌∷◌ c) (nil-append s))))

if_true : (b : Bool) → (if b then true else true) ≡ true
if_true true = refl
if_true false = refl

no_star : (b : Bool) → not b ≡ true → b ≡ false
no_star true h = cc
no_star false h = refl

any_of :
    (p q : String → Bool) (l : List String)
    → any p (filter q l) ≡ true
    → (e : String) × Occurs e l × (q e ≡ true) × (p e ≡ true)
any_of p q [] e = cc
any_of p q (x ∷ l) e = go (q x) refl (p x) refl e (any_of p q l)
  where
    Found : List String → Type 0
    Found m = (e : String) × Occurs e m × (q e ≡ true) × (p e ≡ true)

    later : Found l → Found (x ∷ l)
    later (y, o, h, k) = (y, inr o, h, k)

    go :
        (b : Bool)
        → q x ≡ b
        → (a : Bool) → p x ≡ a
        → any p (if b then x ∷ filter q l else filter q l) ≡ true
        → (any p (filter q l) ≡ true → Found l)
        → Found (x ∷ l)
    go true h true k f rec = (x, inl refl, h, k)
    go true h false k f rec =
        later (rec (ap (λ b. if b then true else any p (filter q l)) (sym k) ∙ f))
    go false h a k f rec = later (rec f)

any_in :
    (p q : String → Bool) (e : String) (l : List String)
    → Occurs e l
    → q e ≡ true
    → p e ≡ true
    → any p (filter q l) ≡ true
any_in p q e [] o h k = absurd o
any_in p q e (x ∷ l) (inl f) h k = rw (ap q (sym f) ∙ h) (rw (ap p (sym f) ∙ k) refl)
any_in p q e (x ∷ l) (inr o) h k =
    let rec = any_in p q e l o h k in
    elim (Bool-cases (q x)) [
      | inl y ↦ rw y (elim (Bool-cases (p x)) [ inl z ↦ rw z refl | inr z ↦ rw z rec ])
      | inr n ↦ rw n rec
    ]

abbrev Found : List String → String → Type 0
Found allowed origin = (entry : String) × Occurs entry allowed × Fits (split_at "*" entry) origin

exact-Found :
    (allowed : List String) (origin : String)
    → any (λ e. e == origin) (exact allowed) ≡ true
    → Found allowed origin
exact-Found allowed origin e =
    read (any_of (λ x. x == origin) (λ x. not (has_letter "*" x)) allowed e)
  where
    read :
        (x : String) × Occurs x allowed × (not (has_letter "*" x) ≡ true) × ((x == origin) ≡ true)
        → Found allowed origin
    read (x, o, h, k) =
        (x, o, rw (split_at-exact x (no_star (has_letter "*" x) h)) (sym ((eq_iff x origin).0 k)))

pattern-Found :
    (allowed : List String) (origin : String)
    → any (λ e. test_pattern e origin) (patterns allowed) ≡ true
    → Found allowed origin
unfolding test_pattern
pattern-Found allowed origin e =
    read (any_of (λ x. test_pattern x origin) (has_letter "*") allowed e)
  where
    read :
        (x : String) × Occurs x allowed × (has_letter "*" x ≡ true) × (test_pattern x origin ≡ true)
        → Found allowed origin
    read (x, o, h, k) = (x, o, test_parts-Fits (split_at "*" x) origin k)

matched : List String → String → Bool
matched allowed origin =
    if any (λ entry. entry == origin) (exact allowed)
    then true
    else any (λ entry. test_pattern entry origin) (patterns allowed)

matched-Found :
    (allowed : List String) (origin : String) → matched allowed origin ≡ true → Found allowed origin
unfolding matched
matched-Found allowed origin e = go (any (λ entry. entry == origin) (exact allowed)) refl e
  where
    go :
        (b : Bool)
        → any (λ entry. entry == origin) (exact allowed) ≡ b
        → (if b then true else any (λ entry. test_pattern entry origin) (patterns allowed)) ≡ true
        → Found allowed origin
    go true h f = exact-Found allowed origin h
    go false h f = pattern-Found allowed origin f

exact_same :
    (x origin : String)
    → has_letter "*" x ≡ false
    → Fits (split_at "*" x) origin
    → (x == origin) ≡ true
exact_same x origin plain f =
    (eq_iff x origin).1 (sym (subst (λ parts. Fits parts origin) (split_at-exact x plain) f))

Found-matched :
    (allowed : List String) (origin : String) → Found allowed origin → matched allowed origin ≡ true
unfolding matched test_pattern
Found-matched allowed origin (x, o, f) = elim (Bool-cases (has_letter "*" x)) [
  | inl star ↦
      let k =
        any_in (λ e. test_pattern e origin) (has_letter "*") x allowed o star
          (Fits-test_parts (split_at "*" x) origin f) in
      rw k (if_true (any (λ entry. entry == origin) (exact allowed)))
  | inr plain ↦
      let same = exact_same x origin plain f in
      let k =
        any_in (λ e. e == origin) (λ e. not (has_letter "*" e)) x allowed o (ap not plain) same in
      rw k refl
]

-- An origin is let in exactly if no header came, the header is empty, or the origin is the text
-- of an entry with each `*` replaced by one letter or more, none of them `/` or `:`.
pub origin_matcher-Allows :
    (allowed : List String) (origin : Option String)
    → (origin_matcher allowed origin ≡ true) ↔ Allows allowed origin
unfolding origin_matcher matched
origin_matcher-Allows allowed none = (λ e. tt, λ h. refl)
origin_matcher-Allows allowed (some origin) = (λ e. go (origin == "") refl e, back)
  where
    go :
        (b : Bool)
        → (origin == "") ≡ b
        → (if b then true else matched allowed origin) ≡ true
        → Allows allowed (some origin)
    go true h f = inl ((eq_iff origin "").0 h)
    go false h f = inr (matched-Found allowed origin f)

    back : Allows allowed (some origin) → origin_matcher allowed (some origin) ≡ true
    back (inl e) = rw e refl
    back (inr f) = rw (Found-matched allowed origin f) (if_true (origin == ""))

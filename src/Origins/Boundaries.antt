-- ===== src/Origins/Boundaries.antt =====
-- The letters `/` and `:` of an origin that is let in: its scheme, its port and its path.
use Prim.Native.String as Text
use Prim.Native.String.{◌++◌}
use planner_api.Common.{
  String, ◌≡◌, refl, ap, sym, ◌∙◌, ◌≢◌, inl, inr, true, some, List, [], ◌∷◌, ◌==◌, if◌then◌else◌,
  Occurs, Bool-cases, eq_iff,
}
use planner_api.Common.Texts.{split_at, onto_first}
use planner_api.Origins.{is_boundary, origin_matcher}
use planner_api.Origins.Parts.{Inner, IsFill, Fits, Allows}
use planner_api.Origins.Patterns.{origin_matcher-Allows}
use text.Mathlib.TextLemmas.{cons-append, nil-append, append-nil, append_assoc}

-- The letters `/` and `:` of a text, in their order.
unfoldable pub boundaries : String → String
boundaries Text.[] = ""
boundaries (Text.◌∷◌ c s) =
    let rest = boundaries s in if is_boundary c then Text.◌∷◌ c rest else rest

boundaries_all : List String → String
boundaries_all [] = ""
boundaries_all (part ∷ parts) = boundaries part ++ boundaries_all parts

boundaries-append : (a b : String) → boundaries (a ++ b) ≡ boundaries a ++ boundaries b
unfolding boundaries
boundaries-append Text.[] b = ap boundaries (nil-append b) ∙ sym (nil-append (boundaries b))
boundaries-append (Text.◌∷◌ c a) b = rw (cons-append c a b) (elim (Bool-cases (is_boundary c)) [
  | inl yes_it ↦
      rw yes_it (rw (boundaries-append a b) (sym (cons-append c (boundaries a) (boundaries b))))
  | inr no_it ↦ rw no_it (boundaries-append a b)
])

boundaries-Inner : (w : String) → Inner w → boundaries w ≡ ""
unfolding boundaries
boundaries-Inner Text.[] h = refl
boundaries-Inner (Text.◌∷◌ c w) (h, inner) = rw h (boundaries-Inner w inner)

boundaries-IsFill : (w : String) → IsFill w → boundaries w ≡ ""
boundaries-IsFill Text.[] h = absurd h
boundaries-IsFill (Text.◌∷◌ c w) h = boundaries-Inner (Text.◌∷◌ c w) h

boundaries-Fits :
    (parts : List String) (s : String) → Fits parts s → boundaries s ≡ boundaries_all parts
unfolding boundaries_all boundaries
boundaries-Fits [] s e = ap boundaries e
boundaries-Fits (part ∷ []) s e = ap boundaries e ∙ sym (append-nil (boundaries part))
boundaries-Fits (part ∷ next ∷ parts) s (w, rest, e, fill, f) =
    ap boundaries e
    ∙ boundaries-append part (w ++ rest)
    ∙ ap (λ x. boundaries part ++ x)
        (boundaries-append w rest
          ∙ ap (λ x. x ++ boundaries rest) (boundaries-IsFill w fill)
          ∙ nil-append (boundaries rest)
          ∙ boundaries-Fits (next ∷ parts) rest f)

boundaries-onto_first :
    (c : String) (parts : List String)
    → boundaries_all (onto_first c parts) ≡ boundaries c ++ boundaries_all parts
unfolding boundaries_all
boundaries-onto_first c [] = refl
boundaries-onto_first c (part ∷ parts) =
    ap (λ x. x ++ boundaries_all parts) (boundaries-append c part)
    ∙ append_assoc (boundaries c) (boundaries part) (boundaries_all parts)

-- Cutting at `*` loses none of them.
boundaries-split_at : (s : String) → boundaries_all (split_at "*" s) ≡ boundaries s
unfolding split_at boundaries boundaries_all
boundaries-split_at Text.[] = append-nil ""
boundaries-split_at (Text.◌∷◌ c s) = elim (Bool-cases (Text.◌∷◌ c "" == "*")) [
  | inl star ↦ rw star (
      rw ((eq_iff (Text.◌∷◌ c "") "*").0 star)
        (nil-append (boundaries_all (split_at "*" s)) ∙ boundaries-split_at s))
  | inr other ↦ rw other (
      boundaries-onto_first (Text.◌∷◌ c "") (split_at "*" s)
      ∙ ap (λ x. boundaries (Text.◌∷◌ c "") ++ x) (boundaries-split_at s)
      ∙ sym (boundaries-append (Text.◌∷◌ c "") s)
      ∙ ap boundaries (cons-append c "" s ∙ ap (Text.◌∷◌ c) (nil-append s)))
]

-- An origin that is let in has the `/`s and `:`s of an entry of the list, in the same order.
pub origin_matcher-boundaries :
    (allowed : List String) (origin : String)
    → origin ≢ ""
    → origin_matcher allowed (some origin) ≡ true
    → (entry : String) × Occurs entry allowed × (boundaries origin ≡ boundaries entry)
origin_matcher-boundaries allowed origin nonempty e =
    read ((origin_matcher-Allows allowed (some origin)).0 e)
  where
    read :
        Allows allowed (some origin)
        → (entry : String) × Occurs entry allowed × (boundaries origin ≡ boundaries entry)
    read (inl blank) = absurd (nonempty blank)
    read (inr (entry, o, f)) =
        (entry, o, boundaries-Fits (split_at "*" entry) origin f ∙ boundaries-split_at entry)

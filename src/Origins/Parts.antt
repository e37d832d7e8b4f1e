-- ===== src/Origins/Parts.antt =====
-- The test of an origin against the parts of a pattern, compared with what a pattern means.
use Prim.Native.Char.{Char}
use Prim.Native.String as Text
use Prim.Native.String.{◌++◌}
use planner_api.Common.{
  String, ◌≡◌, refl, ap, sym, ◌∙◌, ◌⊎◌, Bool, true, false, ◌||◌, Option, none, some, List, [], ◌∷◌,
  ◌==◌, if◌then◌else◌, Occurs, eq_iff,
}
use planner_api.Common.Texts.{split_at, strip}
use planner_api.Origins.{is_boundary, after_star, left, test_parts}
use planner_api.Common.Strip.{strip_sound, strip-append}
use text.Mathlib.TextLemmas.{cons-append, nil-append, append-nil}

-- A text within one host part.
abbrev pub Inner : String → Type 0
Inner Text.[] = Unit
Inner (Text.◌∷◌ c s) = (is_boundary c ≡ false) × Inner s

-- What a `*` may stand for: at least one letter, none of them `/` or `:`.
abbrev pub IsFill : String → Type 0
IsFill Text.[] = ⊥
IsFill (Text.◌∷◌ c s) = Inner (Text.◌∷◌ c s)

-- The text is the parts in their order, with a fill between each two of them.
abbrev pub Fits : List String → String → Type 0
Fits [] s = s ≡ ""
Fits (part ∷ []) s = s ≡ part
Fits (part ∷ next ∷ parts) s =
    (w : String) × (rest : String) × (s ≡ part ++ (w ++ rest)) × IsFill w × Fits (next ∷ parts) rest

-- No header, or an origin that fits an entry cut at its `*`s.
abbrev pub Allows : List String → Option String → Type 0
Allows allowed none = Unit
Allows allowed (some origin) =
    (origin ≡ "") ⊎ ((entry : String) × Occurs entry allowed × Fits (split_at "*" entry) origin)

-- What `after_star` looks for.
abbrev pub Filled : (String → Bool) → String → Type 0
Filled next s = (w : String) × (rest : String) × (s ≡ w ++ rest) × IsFill w × (next rest ≡ true)

pub IsFill-snoc : (c : Char) (w : String) → is_boundary c ≡ false → IsFill w → IsFill (Text.◌∷◌ c w)
IsFill-snoc c Text.[] h f = absurd f
IsFill-snoc c (Text.◌∷◌ d w) h f = (h, f)

pub after_star_sound :
    (next : String → Bool) (s : String) → after_star next s ≡ true → Filled next s
unfolding after_star
after_star_sound next Text.[] e = cc
after_star_sound next (Text.◌∷◌ c s) e =
    go (is_boundary c) refl (next s) refl e (after_star_sound next s)
  where
    longer : is_boundary c ≡ false → Filled next s → Filled next (Text.◌∷◌ c s)
    longer h (w, rest, f, fill, n) = (
      Text.◌∷◌ c w,
      rest,
      ap (Text.◌∷◌ c) f ∙ sym (cons-append c w rest),
      IsFill-snoc c w h fill,
      n,
    )

    go :
        (b : Bool)
        → is_boundary c ≡ b
        → (n : Bool) → next s ≡ n
        → (if b then false else n || after_star next s) ≡ true
        → (after_star next s ≡ true → Filled next s)
        → Filled next (Text.◌∷◌ c s)
    go true h n k f rest = cc
    go false h true k f rest =
        (Text.◌∷◌ c "", s, sym (cons-append c "" s ∙ ap (Text.◌∷◌ c) (nil-append s)), (h, tt), k)
    go false h false k f rest = longer h (rest f)

pub or_true : (b : Bool) → (b || true) ≡ true
or_true true = refl
or_true false = refl

pub after_star-append :
    (next : String → Bool) (w rest : String)
    → IsFill w
    → next rest ≡ true
    → after_star next (w ++ rest) ≡ true
unfolding after_star
after_star-append next Text.[] rest fill n = absurd fill
after_star-append next (Text.◌∷◌ c Text.[]) rest (h, u) n =
    rw (cons-append c "" rest) (rw h (rw (nil-append rest) (rw n refl)))
after_star-append next (Text.◌∷◌ c (Text.◌∷◌ d w)) rest (h, inner) n =
    let later = after_star-append next (Text.◌∷◌ d w) rest inner n in
    rw (cons-append c (Text.◌∷◌ d w) rest) (rw h (rw later (or_true (next (Text.◌∷◌ d w ++ rest)))))

-- The test by parts is exact.
pub test_parts-Fits : (parts : List String) (s : String) → test_parts parts s ≡ true → Fits parts s
unfolding test_parts
test_parts-Fits [] s e = (eq_iff s "").0 e
test_parts-Fits (part ∷ []) s e = go (strip part s) refl e
  where
    go : (o : Option String) → strip part s ≡ o → left (λ rest. rest == "") o ≡ true → s ≡ part
    go none h f = cc
    go (some rest) h f =
        strip_sound part s rest h ∙ ap (λ x. part ++ x) ((eq_iff rest "").0 f) ∙ append-nil part
test_parts-Fits (part ∷ next ∷ parts) s e =
    go (strip part s) refl e (λ r. test_parts-Fits (next ∷ parts) r)
  where
    use_fill :
        (rest : String)
        → strip part s ≡ some rest
        → ((r : String) → test_parts (next ∷ parts) r ≡ true → Fits (next ∷ parts) r)
        → Filled (test_parts (next ∷ parts)) rest
        → Fits (part ∷ next ∷ parts) s
    use_fill rest h rec (w, r, f, fill, n) =
        (w, r, strip_sound part s rest h ∙ ap (λ x. part ++ x) f, fill, rec r n)

    go :
        (o : Option String)
        → strip part s ≡ o
        → left (after_star (test_parts (next ∷ parts))) o ≡ true
        → ((r : String) → test_parts (next ∷ parts) r ≡ true → Fits (next ∷ parts) r)
        → Fits (part ∷ next ∷ parts) s
    go none h f rec = cc
    go (some rest) h f rec =
        use_fill rest h rec (after_star_sound (test_parts (next ∷ parts)) rest f)

pub Fits-test_parts : (parts : List String) (s : String) → Fits parts s → test_parts parts s ≡ true
unfolding test_parts
Fits-test_parts [] s e = (eq_iff s "").1 e
Fits-test_parts (part ∷ []) s e =
    rw e (rw (ap (strip part) (sym (append-nil part)) ∙ strip-append part "") refl)
Fits-test_parts (part ∷ next ∷ parts) s (w, rest, e, fill, f) =
    let ok_rest = Fits-test_parts (next ∷ parts) rest f in
    rw e (
      rw (strip-append part (w ++ rest))
        (after_star-append (test_parts (next ∷ parts)) w rest fill ok_rest))

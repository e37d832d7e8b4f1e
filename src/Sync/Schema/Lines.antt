-- ===== src/Sync/Schema/Lines.antt =====
-- The lines of a model: what is written for a column is what is read.
use Prim.Native.Char.{Char}
use Prim.Native.String as Text
use Prim.Native.String.{◌++◌}
use planner_api.Common.{
  String, ◌≡◌, refl, ap, sym, ◌∙◌, Bool, true, false, not, none, some, List, [], ◌∷◌, ◌==◌,
  if◌then◌else◌, Bool-cases, inl, inr, eq_iff, any,
}
use planner_api.Common.Texts.{strip, trim_start, is_white, has_letter, white_space}
use planner_api.Common.Strip.{strip-append}
use planner_api.Common.Split.{
  Letters, StartsOff, EndsOff, not_empty, one_letter, span-append, trim_start-StartsOff,
}
use planner_api.Common.Scan.{
  is_word, word_letters, span, word, after_white, optional, taken, is_terminator, whole_line,
  if_whole, ◌>>=◌,
}
use planner_api.Sync.Schema.{FieldLine, after_name, type_after, after_type, line_of, field_line}
use text.Mathlib.TextLemmas.{cons-append, nil-append, append-nil}

-- A name: at least one letter, all of them `\w`.
abbrev pub IsWord : String → Type 0
IsWord Text.[] = ⊥
IsWord (Text.◌∷◌ c s) = Letters is_word (Text.◌∷◌ c s)

-- Attributes: one line, no blank at its ends.
abbrev pub IsAttributes : String → Type 0
IsAttributes s = Letters (λ c. not (is_terminator c)) s × StartsOff is_white s × EndsOff is_white s

pub record IsLine (f : FieldLine) : Type 0 where
  pub name_word : IsWord f.name
  pub type_word : IsWord f.type_name
  pub attributes_line : IsAttributes f.attributes

abbrev pub marked : Bool → String → String
marked b s = if b then s else ""

abbrev pub tail : String → String
tail Text.[] = ""
tail (Text.◌∷◌ c s) = " " ++ Text.◌∷◌ c s

-- A column the way Prisma's formatter writes it: `name Type[]? attributes`.
abbrev pub written : FieldLine → String
written f =
    f.name
    ++ (" "
        ++ (f.type_name ++ (marked f.list "[]" ++ (marked f.question "?" ++ tail f.attributes))))

word-append : (w s : String) → IsWord w → StartsOff is_word s → word (w ++ s) ≡ some (w, s)
word-append Text.[] s h off = absurd h
word-append (Text.◌∷◌ c w) s h off =
    rw (span-append is_word (Text.◌∷◌ c w) s h off) (rw (not_empty c w) refl)

no_word :
    (c : Char) (l : List String)
    → any (λ w. has_letter w word_letters) l ≡ false
    → any (λ w. w == Text.◌∷◌ c "") l ≡ true
    → is_word c ≡ false
unfolding is_word
no_word c [] none_word e = cc
no_word c (w ∷ l) none_word e =
    go (w == Text.◌∷◌ c "") refl (has_letter w word_letters) refl e none_word (no_word c l)
  where
    go :
        (a : Bool)
        → (w == Text.◌∷◌ c "") ≡ a
        → (b : Bool) → has_letter w word_letters ≡ b
        → (if a then true else any (λ w. w == Text.◌∷◌ c "") l) ≡ true
        → (if b then true else any (λ w. has_letter w word_letters) l) ≡ false
        → (any (λ w. has_letter w word_letters) l ≡ false
            → any (λ w. w == Text.◌∷◌ c "") l ≡ true
            → is_word c ≡ false)
        → is_word c ≡ false
    go a same true k f g rec = cc
    go true same false k f g rec =
        ap (λ x. has_letter x word_letters) (sym ((eq_iff w (Text.◌∷◌ c "")).0 same)) ∙ k
    go false same false k f g rec = rec g f

-- No letter is both `\w` and `\s`.
pub word_not_white : (c : Char) → is_word c ≡ true → is_white c ≡ false
unfolding is_white has_letter
word_not_white c h = elim (Bool-cases (is_white c)) [
  | inl e ↦ (let off : is_word c ≡ false = no_word c white_space refl e in cc)
  | inr e ↦ e
]

after_blank : (s : String) → after_white (" " ++ s) ≡ some (trim_start s)
unfolding is_white
after_blank s = rw (one_letter " " s) refl

pub StartsOff-word : (w s : String) → IsWord w → StartsOff is_white (w ++ s)
StartsOff-word Text.[] s h = absurd h
StartsOff-word (Text.◌∷◌ c w) s (h, rest) = rw (cons-append c w s) (word_not_white c h)

after_white-word : (w s : String) → IsWord w → after_white (" " ++ (w ++ s)) ≡ some (w ++ s)
after_white-word w s h =
    after_blank (w ++ s) ∙ ap some (trim_start-StartsOff (w ++ s) (StartsOff-word w s h))

-- What follows the type.
abbrev pub modifiers : FieldLine → String
modifiers f = marked f.list "[]" ++ (marked f.question "?" ++ tail f.attributes)

StartsOff-tail : (s : String) → StartsOff is_word (tail s)
unfolding is_word has_letter
StartsOff-tail Text.[] = tt
StartsOff-tail (Text.◌∷◌ c s) = rw (one_letter " " (Text.◌∷◌ c s)) refl

StartsOff-modifiers : (f : FieldLine) → StartsOff is_word (modifiers f)
unfolding is_word has_letter
StartsOff-modifiers f = elim (Bool-cases f.list) [
  | inl l ↦ rw l (rw (cons-append "[" "]" (marked f.question "?" ++ tail f.attributes)) refl)
  | inr l ↦ rw l (
      rw (nil-append (marked f.question "?" ++ tail f.attributes)) (elim (Bool-cases f.question) [
        | inl q ↦ rw q (rw (one_letter "?" (tail f.attributes)) refl)
        | inr q ↦ rw q (rw (nil-append (tail f.attributes)) (StartsOff-tail f.attributes))
      ]))
]

optional-marked :
    (b : Bool) (part s : String) → strip part s ≡ none → optional part (marked b part ++ s) ≡ (b, s)
optional-marked true part s h = ap (taken (part ++ s)) (strip-append part s)
optional-marked false part s h = rw (nil-append s) (ap (taken s) h)

whole_line-tail : (s : String) → IsAttributes s → whole_line (trim_start (tail s)) ≡ some s
unfolding trim_start is_white span
whole_line-tail Text.[] h = refl
whole_line-tail (Text.◌∷◌ c s) (line, off, ends) =
    ap (λ t. whole_line (trim_start t)) (one_letter " " (Text.◌∷◌ c s))
    ∙ ap whole_line (trim_start-StartsOff (Text.◌∷◌ c s) off)
    ∙ ap if_whole (
        ap (span (λ d. not (is_terminator d))) (sym (append-nil (Text.◌∷◌ c s)))
        ∙ span-append (λ d. not (is_terminator d)) (Text.◌∷◌ c s) "" line tt)

no_question : (s : String) → strip "?" (tail s) ≡ none
unfolding strip
no_question Text.[] = refl
no_question (Text.◌∷◌ c s) = rw (one_letter " " (Text.◌∷◌ c s)) refl

no_list : (b : Bool) (s : String) → strip "[]" (marked b "?" ++ tail s) ≡ none
unfolding strip
no_list true s = rw (one_letter "?" (tail s)) refl
no_list false Text.[] = refl
no_list false (Text.◌∷◌ c s) =
    rw (nil-append (" " ++ Text.◌∷◌ c s)) (rw (one_letter " " (Text.◌∷◌ c s)) refl)

line_of-modifiers :
    (f : FieldLine)
    → IsAttributes f.attributes
    → line_of f.name f.type_name (optional "[]" (modifiers f)) ≡ some f
line_of-modifiers f h =
    rw
      (optional-marked f.list "[]" (marked f.question "?" ++ tail f.attributes)
        (no_list f.question f.attributes))
      (rw (optional-marked f.question "?" (tail f.attributes) (no_question f.attributes))
        (rw (whole_line-tail f.attributes h) refl))

-- The line of a column is read as its name, its type, its marks and its attributes.
pub field_line-written : (f : FieldLine) → IsLine f → field_line (written f) ≡ some f
unfolding field_line
field_line-written f h =
    let after = " " ++ (f.type_name ++ modifiers f) in
    ap (λ o. o >>= after_name)
      (word-append f.name after h.name_word (rw (one_letter " " (f.type_name ++ modifiers f)) refl))
    ∙ ap (λ o. o >>= type_after f.name) (after_white-word f.type_name (modifiers f) h.type_word)
    ∙ ap (λ o. o >>= after_type f.name)
        (word-append f.type_name (modifiers f) h.type_word (StartsOff-modifiers f))
    ∙ line_of-modifiers f h.attributes_line

-- ===== src/Sync/Schema/Neat.antt =====
-- Lines of columns without line ends inside, or blanks at their end.
use Prim.Native.Char.{Char}
use Prim.Native.String as Text
use Prim.Native.String.{◌++◌}
use mathlib.Core.Bool.{false≢true}
use planner_api.Common.{
  String, ◌≡◌, refl, ap, sym, ◌∙◌, Bool, true, false, not, ◌==◌, Bool-cases, inl, inr, eq_iff,
}
use planner_api.Common.Texts.{is_white, has_letter}
use planner_api.Common.Split.{Letters, EndsOff, Lacks, one_letter, EndsOff-append, Lacks-append}
use planner_api.Common.Scan.{is_word, word_letters, is_terminator}
use planner_api.Sync.Schema.{FieldLine}
use planner_api.Sync.Schema.Lines.{
  IsWord, IsLine, IsAttributes, written, modifiers, marked, tail, word_not_white,
}
use text.Mathlib.TextLemmas.{cons-append}

-- A letter that is no `\w` differs from one that is.
pub not_word :
    (t : String) (c : Char)
    → has_letter t word_letters ≡ false
    → is_word c ≡ true
    → (Text.◌∷◌ c "" == t) ≡ false
unfolding is_word
not_word t c off h = elim (Bool-cases (Text.◌∷◌ c "" == t)) [
  | inl e ↦
      (let both : has_letter t word_letters ≡ true =
          ap (λ x. has_letter x word_letters) (sym ((eq_iff (Text.◌∷◌ c "") t).0 e)) ∙ h in
        cc)
  | inr e ↦ e
]

pub word_is_not :
    (t : String) (c : Char)
    → has_letter t word_letters ≡ false
    → is_word c ≡ true
    → (t == Text.◌∷◌ c "") ≡ false
unfolding is_word
word_is_not t c off h = elim (Bool-cases (t == Text.◌∷◌ c "")) [
  | inl e ↦
      (let both : has_letter t word_letters ≡ true =
          ap (λ x. has_letter x word_letters) ((eq_iff t (Text.◌∷◌ c "")).0 e) ∙ h in
        cc)
  | inr e ↦ e
]

pub Lacks-word : (w : String) → Letters is_word w → Lacks "\n" w
unfolding has_letter
Lacks-word Text.[] h = tt
Lacks-word (Text.◌∷◌ c w) (h, rest) = (not_word "\n" c refl h, Lacks-word w rest)

pub Lacks-attributes : (s : String) → Letters (λ c. not (is_terminator c)) s → Lacks "\n" s
unfolding has_letter
Lacks-attributes Text.[] h = tt
Lacks-attributes (Text.◌∷◌ c s) (h, rest) = (
  elim (Bool-cases (Text.◌∷◌ c "" == "\n")) [
    | inl e ↦
        let ends : not (has_letter "\n" "\n\r\u{2028}\u{2029}") ≡ true =
          ap (λ x. not (has_letter x "\n\r\u{2028}\u{2029}"))
            (sym ((eq_iff (Text.◌∷◌ c "") "\n").0 e))
          ∙ h in
        absurd (false≢true ends)
    | inr e ↦ e
  ],
  Lacks-attributes s rest,
)

pub EndsOff-word : (w : String) → Letters is_word w → EndsOff is_white w
EndsOff-word Text.[] h = tt
EndsOff-word (Text.◌∷◌ c Text.[]) (h, rest) = word_not_white c h
EndsOff-word (Text.◌∷◌ c (Text.◌∷◌ d w)) (h, rest) = EndsOff-word (Text.◌∷◌ d w) rest

pub Letters-IsWord : (w : String) → IsWord w → Letters is_word w
Letters-IsWord Text.[] h = absurd h
Letters-IsWord (Text.◌∷◌ c w) h = h

-- A line without line ends, whose last letter is no blank.
abbrev pub Neat : String → Type 0
Neat s = Lacks "\n" s × EndsOff is_white s

pub Neat-append : (a b : String) → Neat a → Neat b → Neat (a ++ b)
Neat-append a b (h, e) (k, f) = (Lacks-append "\n" a b h k, EndsOff-append is_white a b e f)

pub Neat-mark : (b : Bool) (s : String) → Neat s → Neat (marked b s)
Neat-mark true s h = h
Neat-mark false s h = (tt, tt)

pub Neat-tail : (s : String) → IsAttributes s → Neat (tail s)
unfolding is_white
Neat-tail Text.[] h = (tt, tt)
Neat-tail (Text.◌∷◌ c s) (line, off, ends) =
    rw (one_letter " " (Text.◌∷◌ c s)) ((refl, Lacks-attributes (Text.◌∷◌ c s) line), ends)

pub Neat-modifiers : (f : FieldLine) → IsAttributes f.attributes → Neat (modifiers f)
unfolding is_white
Neat-modifiers f h =
    Neat-append (marked f.list "[]") (marked f.question "?" ++ tail f.attributes)
      (Neat-mark f.list "[]" ((refl, (refl, tt)), refl))
      (Neat-append (marked f.question "?") (tail f.attributes)
        (Neat-mark f.question "?" ((refl, tt), refl)) (Neat-tail f.attributes h))

pub Neat-after_blank : (w s : String) → IsWord w → Neat (w ++ s) → Neat (" " ++ (w ++ s))
Neat-after_blank Text.[] s h (lacks, ends) = absurd h
Neat-after_blank (Text.◌∷◌ c w) s h (lacks, ends) = rw (one_letter " " (Text.◌∷◌ c w ++ s)) (
    rw (cons-append c w s)
      ((refl, rw (cons-append c w s) at lacks), rw (cons-append c w s) at ends))

pub Neat-word : (w : String) → IsWord w → Neat w
Neat-word w h = (Lacks-word w (Letters-IsWord w h), EndsOff-word w (Letters-IsWord w h))

pub Neat-written : (f : FieldLine) → IsLine f → Neat (written f)
Neat-written f h =
    Neat-append f.name (" " ++ (f.type_name ++ modifiers f)) (Neat-word f.name h.name_word) (
      Neat-after_blank f.type_name (modifiers f) h.type_word (
        Neat-append f.type_name (modifiers f) (Neat-word f.type_name h.type_word)
          (Neat-modifiers f h.attributes_line)))

-- ===== src/Common/Strip.antt =====
-- A text that begins with a literal.
use Prim.Native.Char.{Char}
use Prim.Native.String as Text
use Prim.Native.String.{String, ◌++◌}
use mathlib.Core.Path.{◌≡◌, refl, ap, sym, ◌∙◌}
use mathlib.Core.Bool.{Bool, true, false}
use mathlib.Core.Option.{none, some}
use text.Mathlib.Text.{◌==◌}
use text.Mathlib.TextEquality.{eq_iff}
use text.Mathlib.TextPositions.{eq_refl}
use planner_api.Common.Tests.{if◌then◌else◌}
use planner_api.Common.Texts.{strip}
use text.Mathlib.TextLemmas.{cons-append, nil-append}

same_head : (c d : Char) (s : String) → Text.◌∷◌ c "" ≡ Text.◌∷◌ d "" → Text.◌∷◌ d s ≡ Text.◌∷◌ c s
same_head c d s e =
    sym (cons-append d "" s ∙ ap (Text.◌∷◌ d) (nil-append s))
    ∙ ap (λ x. x ++ s) (sym e)
    ∙ cons-append c "" s
    ∙ ap (Text.◌∷◌ c) (nil-append s)

same_some : (s rest : String) → some s ≡ some rest → s ≡ rest
same_some s rest e = cc

pub strip_sound : (p s rest : String) → strip p s ≡ some rest → s ≡ p ++ rest
unfolding strip
strip_sound Text.[] s rest e = same_some s rest e ∙ sym (nil-append rest)
strip_sound (Text.◌∷◌ c p) Text.[] rest e = cc
strip_sound (Text.◌∷◌ c p) (Text.◌∷◌ d s) rest e =
    go (Text.◌∷◌ c "" == Text.◌∷◌ d "") refl e (strip_sound p s rest)
  where
    go :
        (b : Bool)
        → (Text.◌∷◌ c "" == Text.◌∷◌ d "") ≡ b
        → (if b then strip p s else none) ≡ some rest
        → (strip p s ≡ some rest → s ≡ p ++ rest)
        → Text.◌∷◌ d s ≡ Text.◌∷◌ c p ++ rest
    go true same f rec =
        same_head c d s ((eq_iff (Text.◌∷◌ c "") (Text.◌∷◌ d "")).0 same)
        ∙ ap (Text.◌∷◌ c) (rec f)
        ∙ sym (cons-append c p rest)
    go false other f rec = cc

pub strip-append : (p rest : String) → strip p (p ++ rest) ≡ some rest
unfolding strip
strip-append Text.[] rest = ap some (nil-append rest)
strip-append (Text.◌∷◌ c p) rest =
    rw (cons-append c p rest) (rw (eq_refl (Text.◌∷◌ c "")) (strip-append p rest))

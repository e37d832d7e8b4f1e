-- ===== src/Common/Lists.antt =====
-- Lists measured by native numbers, and predicates on their items, under the library's names.
use Prim.Native.Nat.{ℕ, zero, suc, ◌+◌, min}
use mathlib.Core.Path.{◌≡◌, refl}
use mathlib.Core.Logic.{◌⊎◌, inl, inr}
use mathlib.Core.Bool.{Bool, true, false}
use mathlib.Core.List.{List, [], ◌∷◌, ◌++◌}
use native.Mathlib.Omega.{arith}
use planner_api.Common.Tests.{if◌then◌else◌}

module _ {ℓ} {A : Type ℓ} where
  abbrev pub length : List A → ℕ
  length [] = 0
  length (x ∷ xs) = suc (length xs)

  abbrev pub take : ℕ → List A → List A
  take zero xs = []
  take (suc n) [] = []
  take (suc n) (x ∷ xs) = x ∷ take n xs

  abbrev pub drop : ℕ → List A → List A
  drop zero xs = xs
  drop (suc n) [] = []
  drop (suc n) (x ∷ xs) = drop n xs

  -- JavaScript's `filter`.
  abbrev pub filter : (A → Bool) → List A → List A
  filter p [] = []
  filter p (x ∷ xs) = let rest = filter p xs in if p x then x ∷ rest else rest

  abbrev pub any : (A → Bool) → List A → Bool
  any p [] = false
  any p (x ∷ xs) = let rest = any p xs in if p x then true else rest

  pub length-append : (xs ys : List A) → length (xs ++ ys) ≡ length xs + length ys
  length-append [] ys = omega arith
  length-append (x ∷ xs) ys = omega (arith, length-append xs ys)

  pub length-take : (n : ℕ) (xs : List A) → length (take n xs) ≡ min n (length xs)
  length-take zero xs = omega arith
  length-take (suc n) [] = omega arith
  length-take (suc n) (x ∷ xs) = omega (arith, length-take n xs)

module _ {A : Type 0} where
  -- `a` is an item of the list.
  abbrev pub Occurs : A → List A → Type 0
  Occurs a [] = ⊥
  Occurs a (x ∷ xs) = (a ≡ x) ⊎ Occurs a xs

  abbrev pub All : (A → Type 0) → List A → Type 0
  All P [] = Unit
  All P (x ∷ xs) = P x × All P xs

  pub All-Occurs : (P : A → Type 0) (a : A) (xs : List A) → All P xs → Occurs a xs → P a
  All-Occurs P a [] h o = absurd o
  All-Occurs P a (x ∷ xs) h (inl e) = rw e h.0
  All-Occurs P a (x ∷ xs) h (inr o) = All-Occurs P a xs h.1 o

  pub All-from_Occurs : (P : A → Type 0) (xs : List A) → ((a : A) → Occurs a xs → P a) → All P xs
  All-from_Occurs P [] h = tt
  All-from_Occurs P (x ∷ xs) h = (h x (inl refl), All-from_Occurs P xs (λ a o. h a (inr o)))

  pub Occurs-append_left : (a : A) (xs ys : List A) → Occurs a xs → Occurs a (xs ++ ys)
  Occurs-append_left a [] ys o = absurd o
  Occurs-append_left a (x ∷ xs) ys (inl e) = inl e
  Occurs-append_left a (x ∷ xs) ys (inr o) = inr (Occurs-append_left a xs ys o)

  pub Occurs-append_right : (a : A) (xs ys : List A) → Occurs a ys → Occurs a (xs ++ ys)
  Occurs-append_right a [] ys o = o
  Occurs-append_right a (x ∷ xs) ys o = inr (Occurs-append_right a xs ys o)

  pub Occurs-append : (a : A) (xs ys : List A) → Occurs a (xs ++ ys) → Occurs a xs ⊎ Occurs a ys
  Occurs-append a [] ys o = inr o
  Occurs-append a (x ∷ xs) ys (inl e) = inl (inl e)
  Occurs-append a (x ∷ xs) ys (inr o) = elim (Occurs-append a xs ys o) [
    | inl p ↦ inl (inr p)
    | inr q ↦ inr q
  ]

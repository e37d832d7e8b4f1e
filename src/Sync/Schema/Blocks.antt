-- ===== src/Sync/Schema/Blocks.antt =====
-- The search for the blocks of a schema file ends: each step of it leaves less of the text.
use Prim.Native.Char.{Char}
use Prim.Native.String as Text
use Prim.Native.String.{◌++◌}
use planner_api.Common.{
  ℕ, zero, suc, ◌+◌, ◌≤◌, ◌<◌, String, ◌≡◌, refl, ap, sym, Bool, true, false, not, Option, none,
  some, List, [], ◌∷◌, ◌==◌, arith, Bool-cases, inl, inr,
}
use planner_api.Common.Texts.{strip, trim_start, is_white}
use planner_api.Common.Strip.{strip_sound}
use planner_api.Common.Scan.{is_word, span, word, nonempty, after_white, size, ◌>>=◌}
use planner_api.Sync.Schema.{
  set_all, enum_values, schema_of, PrismaSchema, Block, Place, block_at, look, advance, add_block,
  blocks, match_all, PrismaSchema, parse_prisma_schema, body_of, named_body,
}
use text.Mathlib.TextLemmas.{cons-append, nil-append}

some-inj : {A : Type 0} {a b : A} → some a ≡ some b → a ≡ b
some-inj e = cc

size-append : (a b : String) → size (a ++ b) ≡ size a + size b
unfolding size
size-append Text.[] b = rw (nil-append b) (omega arith)
size-append (Text.◌∷◌ c a) b = rw (cons-append c a b) (omega (arith, size-append a b))

size-strip : (p s rest : String) → strip p s ≡ some rest → size rest ≤ size s
size-strip p s rest e = rw (strip_sound p s rest e) (omega (arith, size-append p rest))

size-span : (p : Char → Bool) (s : String) → size ((span p s).1) ≤ size s
unfolding span size
size-span p Text.[] = omega arith
size-span p (Text.◌∷◌ c s) = elim (Bool-cases (p c)) [
  | inl y ↦ rw y (omega (arith, size-span p s))
  | inr n ↦ rw n (omega arith)
]

size-trim_start : (s : String) → size (trim_start s) ≤ size s
unfolding trim_start size
size-trim_start Text.[] = omega arith
size-trim_start (Text.◌∷◌ c s) = elim (Bool-cases (is_white c)) [
  | inl y ↦ rw y (omega (arith, size-trim_start s))
  | inr n ↦ rw n (omega arith)
]

-- A chain of optional results that gives one went through each of them.
bind-some :
    {A B : Type 0} (m : Option A) (f : A → Option B) (b : B)
    → (m >>= f) ≡ some b
    → (a : A) × (m ≡ some a) × (f a ≡ some b)
bind-some none f b e = cc
bind-some (some a) f b e = (a, refl, e)

size-after_white : (s rest : String) → after_white s ≡ some rest → size rest < size s
unfolding size
size-after_white Text.[] rest e = cc
size-after_white (Text.◌∷◌ c s) rest e = elim (Bool-cases (is_white c)) [
  | inl y ↦
      let same : some (trim_start s) ≡ some rest = rw y at e in
      rw (← some-inj same) (omega (arith, size-trim_start s))
  | inr n ↦ (let none_of_it : none ≡ some rest = rw n at e in cc)
]

size-nonempty : (p : String × String) (w rest : String) → nonempty p ≡ some (w, rest) → rest ≡ p.1
size-nonempty (a, b) w rest e = elim (Bool-cases (a == "")) [
  | inl y ↦
      (let none_of_it : ◌≡◌ {A = Option (String × String)} none (some (w, rest)) = rw y at e in cc)
  | inr n ↦
      (let same : some (a, b) ≡ some (w, rest) = rw n at e in sym (ap (λ x. x.1) (some-inj same)))
]

size-span_word :
    (p : Char → Bool) (s w rest : String)
    → nonempty (span p s) ≡ some (w, rest)
    → size rest ≤ size s
size-span_word p s w rest e = rw (size-nonempty (span p s) w rest e) (size-span p s)

size-body_of : (s body rest : String) → body_of s ≡ some (body, rest) → size rest ≤ size s
size-body_of s body rest e =
    let (t, e1, e2) = bind-some (strip "{" (trim_start s)) _ (body, rest) e in
    let (v, e3, e4) =
      bind-some (strip "}" (span (λ c. not (Text.◌∷◌ c "" == "}")) t).1) _ (body, rest) e2 in
    rw (← ap (λ x. x.1) (some-inj e4)) (
      omega (
        arith,
        size-trim_start s,
        size-strip "{" (trim_start s) t e1,
        size-span (λ c. not (Text.◌∷◌ c "" == "}")) t,
        size-strip "}" ((span (λ c. not (Text.◌∷◌ c "" == "}")) t).1) v e3,
      ))

size-named_body :
    (name s n body rest : String) → named_body name s ≡ some (n, body, rest) → size rest ≤ size s
size-named_body name s n body rest e =
    let ((b, r), e1, e2) = bind-some (body_of s) _ (n, body, rest) e in
    rw (← ap (λ x. x.2) (some-inj e2)) (size-body_of s b r e1)

size-block_at :
    (keyword s name body rest : String)
    → block_at keyword s ≡ some (name, body, rest)
    → size rest < size s
unfolding block_at
size-block_at keyword s name body rest e =
    let (t, e1, e2) = bind-some (strip keyword s) _ (name, body, rest) e in
    let (u, e3, e4) = bind-some (after_white t) _ (name, body, rest) e2 in
    let ((w, v), e5, e6) = bind-some (word u) _ (name, body, rest) e4 in
    omega (
      arith,
      size-strip keyword s t e1,
      size-after_white t u e3,
      size-span_word is_word u w v e5,
      size-named_body w v name body rest e6,
    )

size-advance :
    (s : String) (b : Option Block) (next : Place)
    → advance s ≡ some (b, next)
    → size next.1 < size s
unfolding size
size-advance Text.[] b next e = cc
size-advance (Text.◌∷◌ c s) b next e = rw (← ap (λ x. x.1.1) (some-inj e)) (omega arith)

size-look :
    (keyword : String) (place : Place) (b : Option Block) (next : Place)
    → look keyword place ≡ some (b, next)
    → size next.1 < size place.1
size-look keyword (false, s) b next e = size-advance s b next e
size-look keyword (true, s) b next e = go (block_at keyword s) refl e
  where
    go :
        (o : Option (String × String × String))
        → block_at keyword s ≡ o
        → elim o [
          | none ↦ advance s
          | some (name, body, rest) ↦ some (some (name, body), (false, rest))
        ]
          ≡ some (b, next)
        → size next.1 < size s
    go none h f = size-advance s b next f
    go (some (name, body, rest)) h f =
        rw (← ap (λ x. x.1.1) (some-inj f)) (size-block_at keyword s name body rest h)

blocks-Ends :
    (fuel : ℕ) (keyword : String) (place : Place)
    → size place.1 < fuel
    → (l : List Block) × (blocks fuel keyword place ≡ some l)
unfolding blocks
blocks-Ends zero keyword place h = absurd (omega (arith, h))
blocks-Ends (suc fuel) keyword place h =
    go (look keyword place) (λ b next e. omega (arith, h, size-look keyword place b next e))
      (blocks-Ends fuel keyword)
  where
    add :
        (b : Option Block) (o : Option (List Block))
        → (l : List Block) × (o ≡ some l)
        → (l : List Block) × (add_block b o ≡ some l)
    add none o (l, e) = (l, ap (add_block none) e)
    add (some a) o (l, e) = (a ∷ l, ap (add_block (some a)) e)

    go :
        (o : Option (Option Block × Place))
        → ((b : Option Block) (next : Place) → o ≡ some (b, next) → size next.1 < fuel)
        → ((next : Place)
            → size next.1 < fuel
            → (l : List Block) × (blocks fuel keyword next ≡ some l))
        → (l : List Block) × (elim o [
          | none ↦ some []
          | some (b, next) ↦ add_block b (blocks fuel keyword next)
        ]
            ≡ some l)
    go none less rec = ([], refl)
    go (some (b, next)) less rec = add b (blocks fuel keyword next) (rec next (less b next refl))

match_all-Ends : (keyword source : String) → (l : List Block) × (match_all keyword source ≡ some l)
unfolding match_all
match_all-Ends keyword source = blocks-Ends (size source + 1) keyword (true, source) (omega arith)

-- The reading of a schema file ends, whatever its text: the fuel, one more than the letters of
-- the file, is enough for both searches.
parse_prisma_schema-Ends :
    (source : String) → (schema : PrismaSchema) × (parse_prisma_schema source ≡ some schema)
unfolding parse_prisma_schema
parse_prisma_schema-Ends source =
    let (found, e) = match_all-Ends "enum" source in
    let (bodies, f) = match_all-Ends "model" source in
    let enums = set_all (λ name body. enum_values body) found [] in
    (schema_of enums (set_all (λ name body. body) bodies []), rw e (rw f refl))

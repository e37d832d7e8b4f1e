-- ===== src/Store/Query.antt =====
-- The `where` objects that the services hand to Prisma, and which rows they select.
use planner_api.Common.{
  ℕ, String, Bool, true, false, not, ◌&&◌, ◌||◌, List, [], ◌∷◌, ◌==◌, eqb, ltb, leb, any,
  if◌then◌else◌,
}
use planner_api.Common.Int.{ℤ, pos, negsuc}
use planner_api.Store.Value.{
  Value, bool, int, float, big, str, date, Row, get, is_nullish, instant, number,
}

-- One entry of a `where`: an equation, or an object of operators. `matches_any q` is the value of
-- `OR`, where each listed column is asked to contain `q`.
pub data Condition : Type 0 where
  equals : Value → Condition
  is_in not_in : List String → Condition
  is_null not_null : Condition
  seq_gt : ℕ → Condition
  lt gte lte : ℕ → Condition
  between : ℕ → ℕ → Condition
  contains : String → Condition
  matches_any : List String → String → Condition
  lt_or_null : ℕ → Condition

abbrev pub Where : Type 0
Where = List (String × Condition)

-- `where.key = condition`: an entry that is there already is replaced.
abbrev pub put : String → Condition → Where → Where
put k c [] = (k, c) ∷ []
put k c ((j, d) ∷ w) = let rest = put k c w in if j == k then (k, c) ∷ w else (j, d) ∷ rest

abbrev eq_int : ℤ → ℤ → Bool
eq_int (pos m) (pos n) = eqb m n
eq_int (negsuc m) (negsuc n) = eqb m n
eq_int _ _ = false

abbrev eq_bool : Bool → Bool → Bool
eq_bool true b = b
eq_bool false b = not b

-- Equality of column values. A column holds no object, and NULL equals nothing.
abbrev pub value_eq : Value → Value → Bool
value_eq (str s) (str t) = s == t
value_eq (bool a) (bool b) = eq_bool a b
value_eq (int a) (int b) = eq_int a b
value_eq (float a) (float b) = eqb a b
value_eq (big a) (big b) = eqb a b
value_eq (date a) (date b) = eqb a b
value_eq _ _ = false

abbrev is_date : Value → Bool
is_date (date t) = true
is_date _ = false

abbrev text_in : Value → List String → Bool
text_in (str s) l = any (λ t. t == s) l
text_in _ l = false

abbrev is_text : Value → Bool
is_text (str s) = true
is_text _ = false

-- `like s q`: the column's text contains `q`, whatever the case of letters (the database decides).
module _ (like : String → String → Bool) where
  abbrev like_value : String → Value → Bool
  like_value q (str s) = like s q
  like_value q _ = false

  abbrev pub holds : Condition → String → Row → Bool
  holds (equals v) k r = value_eq (get k r) v
  holds (is_in l) k r = text_in (get k r) l
  holds (not_in l) k r = is_text (get k r) && not (text_in (get k r) l)
  holds is_null k r = is_nullish (get k r)
  holds not_null k r = not (is_nullish (get k r))
  holds (seq_gt n) k r = ltb n (number (get k r))
  holds (lt t) k r = is_date (get k r) && ltb (instant (get k r)) t
  holds (gte t) k r = is_date (get k r) && leb t (instant (get k r))
  holds (lte t) k r = is_date (get k r) && leb (instant (get k r)) t
  holds (between a b) k r =
      is_date (get k r) && leb a (instant (get k r)) && leb (instant (get k r)) b
  holds (contains q) k r = like_value q (get k r)
  holds (matches_any columns q) k r = any (λ c. like_value q (get c r)) columns
  holds (lt_or_null t) k r =
      is_nullish (get k r) || (is_date (get k r) && ltb (instant (get k r)) t)

  -- Every entry of the object has to hold.
  unfoldable pub matches : Where → Row → Bool
  matches [] r = true
  matches ((k, c) ∷ w) r = holds c k r && matches w r

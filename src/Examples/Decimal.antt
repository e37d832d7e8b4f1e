-- ===== src/Examples/Decimal.antt =====
-- The decimal text of a number, as an example of what `bigint.toString()` gives.
use Prim.Native.String.{◌++◌}
use planner_api.Common.{ℕ, zero, suc, ◌+◌, ◌/◌, ◌%◌, String, List, [], ◌∷◌, ltb, if◌then◌else◌}

abbrev digits : List String
digits = "0" ∷ "1" ∷ "2" ∷ "3" ∷ "4" ∷ "5" ∷ "6" ∷ "7" ∷ "8" ∷ "9" ∷ []

abbrev digit_at : List String → ℕ → String
digit_at [] n = ""
digit_at (d ∷ l) zero = d
digit_at (d ∷ l) (suc n) = digit_at l n

-- The last digit comes from the remainder; a number has no more digits than the fuel of `decimal`.
decimal_of : ℕ → ℕ → String
decimal_of zero n = ""
decimal_of (suc fuel) n =
    let rest = decimal_of fuel (n / 10) in
    if ltb n 10 then digit_at digits n else rest ++ digit_at digits (n % 10)

unfoldable pub decimal : ℕ → String
unfolding decimal_of
decimal n = decimal_of (n + 1) n

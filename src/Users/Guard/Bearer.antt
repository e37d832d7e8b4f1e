-- ===== src/Users/Guard/Bearer.antt =====
-- The `Authorization` header: the token that follows `Bearer`.
use Prim.Native.String.{◌++◌}
use planner_api.Common.{String, ◌≡◌, refl, ap, some}
use planner_api.Common.Split.{Lacks, one_letter, split_at-append, split_at-Lacks}
use planner_api.Users.Guard.{extract_bearer_token}

-- A token without a space that is sent as `Bearer <token>` is the token that is read.
pub extract_bearer_token-Bearer :
    (token : String)
    → Lacks " " token
    → extract_bearer_token (some ("Bearer" ++ (" " ++ token))) ≡ some token
unfolding extract_bearer_token
extract_bearer_token-Bearer token h = rw (ap (λ x. "Bearer" ++ x) (one_letter " " token)) (
    rw (split_at-append " " "Bearer" token (refl, (refl, (refl, (refl, (refl, (refl, tt)))))))
      (rw (split_at-Lacks " " token h) refl))

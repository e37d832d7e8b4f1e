-- ===== src/Errors.antt =====
-- common/filters/all-exceptions.filter.ts: what the client is told of an exception.
use planner_api.Common.{
  ℕ, String, ◌≡◌, refl, sym, ap, ◌∙◌, ◌==◌, if◌then◌else◌, inl, inr, Bool, true, false,
}
use planner_api.Store.Db.{
  Exception, Result, ok, err, not_found, bad_request, unauthorized, forbidden, service_unavailable,
  known_request, validation_error, failure,
}
use planner_api.Store.Value.{Row}
use planner_api.Store.Action.{World, Env}
use planner_api.Crud.{find_one}
use planner_api.Crud.Rows.{find_one-cases}

pub record Reply : Type 0 where
  pub status : ℕ
  pub code : String
  pub message : String

abbrev reply_with : ℕ → String → String → Reply
reply_with status code message = record { status = status; code = code; message = message }

-- mapPrismaError
abbrev map_prisma_error : String → Reply
map_prisma_error code =
    if code == "P2002"
    then reply_with 409 "CONFLICT" "A record with these values already exists"
    else if code == "P2003"
    then reply_with 400 "BAD_REQUEST" "Referenced record does not exist"
    else if code == "P2025"
    then reply_with 404 "NOT_FOUND" "Record not found"
    else reply_with 500 "DATABASE_ERROR" "A database error occurred"

-- `catch`, with the status and the error text that NestJS gives to each of its exceptions.
unfoldable pub reply : Exception → Reply
reply (not_found message) = reply_with 404 "Not Found" message
reply (bad_request message) = reply_with 400 "Bad Request" message
reply (unauthorized message) = reply_with 401 "Unauthorized" message
reply (forbidden message) = reply_with 403 "Forbidden" message
reply (service_unavailable message) = reply_with 503 "Service Unavailable" message
reply (known_request code) = map_prisma_error code
reply (validation_error text) = reply_with 400 "BAD_REQUEST" "Invalid data provided"
reply (failure text) = reply_with 500 "INTERNAL_SERVER_ERROR" "An unexpected error occurred"

status_of_not_found : (e : Exception) (m : String) → e ≡ not_found m → (reply e).status ≡ 404
unfolding reply
status_of_not_found e m p = rw p refl

same_exception : (a b : Exception) (r q : Result Row) → r ≡ err a → q ≡ err b → r ≡ q → a ≡ b
same_exception a b r q e f p = cc

no_row : (a : Exception) (r : Row) (x y : Result Row) → x ≡ err a → y ≡ ok r → x ≡ y → ⊥
no_row a r x y e f p = refuse (sym e ∙ p ∙ f)
  where
    code : Result Row → Bool
    code (ok q) = true
    code (err b) = false

    refuse : err a ≡ ok r → ⊥
    refuse q = different (ap code q)
      where
        different : false ≡ true → ⊥
        different t = cc

-- A `findOne` that throws is answered with status 404.
pub find_one-reply :
    (env : Env) (model user id : String) (e : Exception) (s : World) (inc : Bool)
    → (find_one env model user id inc s).0 ≡ err e
    → (reply e).status ≡ 404
find_one-reply env model user id e s inc h = elim (find_one-cases env model user id inc s) [
  | inl p ↦
      status_of_not_found e model (same_exception e (not_found model) _ _ h refl (ap (λ x. x.0) p))
  | inr (r, p) ↦ absurd (no_row e r _ _ h refl (ap (λ x. x.0) p))
]

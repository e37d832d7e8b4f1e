-- ===== src/Requests/Scoped.antt =====
-- Whatever a validated request asks of a controller stays with its caller.
pub mod Tasks
pub mod Meetings
use planner_api.Common.{
  String, ◌≡◌, refl, ap, sym, ◌∙◌, Bool, true, false, not, Option, none, some, List, [], ◌∷◌, ◌++◌,
  arith, ◌==◌, if◌then◌else◌, Bool-cases, inl, inr,
}
use planner_api.Store.Value.{Value, str, Row, get, truthy, has, spread, is_undefined}
use planner_api.Store.Db.{Result, ok, err, Order, defined, bad_request}
use planner_api.Store.Effects.{has-defined}
use planner_api.Store.Action.{Action, World, pure, throw, ◌>>=◌, ◌>>◌, Env, lift}
use planner_api.Crud.Keeps.{Keeps, Keeps-pure, Keeps-throw, Keeps-bind, Keeps-lift-bind, Keeps-if}
use planner_api.Crud.Isolation.{Isolated}
use planner_api.Recurrence.Spawn.{Zone}
use planner_api.Tasks.{if_sent, patched, date_or_null}
use planner_api.Resources.{dated}
use planner_api.Requests.Answer.{Answer}
use planner_api.Requests.Dto.{Dto, declares}
use planner_api.Requests.Validation.{
  Pipe, Validates, validated, validated_nested, uuid_param, without,
}

module _ (pipe : Pipe) (user : String) where
  pub Keeps-uuid_param :
      {A : Type 0} (id : String) (m : Action A)
      → Keeps user [] m
      → Keeps user [] (uuid_param pipe id >> m)
  unfolding uuid_param
  Keeps-uuid_param id m k =
      Keeps-bind user [] _ _
        (Keeps-if user [] (pipe.is_uuid id) _ _ (Keeps-pure user [] tt) (Keeps-throw user [] _))
        λ u. k

  -- The rest of a handler may use that the body was let through.
  pub Keeps-validated :
      {A : Type 0} (d : Dto) (body : Row) (f : Row → Action A)
      → ((dto : Row) → pipe.transform d body ≡ ok dto → Keeps user [] (f dto))
      → Keeps user [] (validated pipe d body >>= f)
  unfolding validated
  Keeps-validated d body f k = Keeps-lift-bind user [] (pipe.transform d body) f k

  pub Keeps-validated_nested :
      {A : Type 0} (d : Dto) (body : Option Row) (f : Option Row → Action A)
      → ((dto : Option Row) → Keeps user [] (f dto))
      → Keeps user [] (validated_nested pipe d body >>= f)
  unfolding validated_nested
  Keeps-validated_nested d none f k = Keeps-bind user [] _ _ (Keeps-pure user [] none) k
  Keeps-validated_nested d (some body) f k =
      Keeps-bind user [] _ _ (Keeps-validated d body _ λ dto e. Keeps-pure user [] (some dto)) k

  -- What becomes of a handler's result leaves the database alone.
  pub Keeps-answer :
      {A : Type 0} (m : Action A) (f : A → Answer)
      → ((s : World) → Isolated user s.db (m s).1.db)
      → Keeps user [] (m >>= λ a. pure (f a))
  Keeps-answer m f k =
      Keeps-bind user [] m _ (record { at = λ s h. k s }) λ a. Keeps-pure user [] (f a)

  pub Keeps-at :
      {A : Type 0} (id : String) (m : Action A) (f : A → Answer)
      → ((s : World) → Isolated user s.db (m s).1.db)
      → Keeps user [] (uuid_param pipe id >> (m >>= λ a. pure (f a)))
  Keeps-at id m f k = Keeps-uuid_param id _ (Keeps-answer m f k)

pub has-without : (name k : String) (r : Row) → has k r ≡ false → has k (without name r) ≡ false
has-without name k [] h = refl
has-without name k ((j, v) ∷ r) h = ground (arith, has-without name k r, h)

has-append : (k : String) (a b : Row) → has k a ≡ false → has k b ≡ false → has k (a ++ b) ≡ false
has-append k [] b h h' = h'
has-append k ((j, v) ∷ a) b h h' = ground (arith, has-append k a b, h, h')

pub has-if_sent :
    (k : String) (v : Value) (columns : Row)
    → has k columns ≡ false
    → has k (if_sent v columns) ≡ false
has-if_sent k v columns h = elim (Bool-cases (is_undefined v)) [
  | inl e ↦ rw e refl
  | inr e ↦ rw e h
]

module _ (env : Env) (zone : Zone) (user : String) where
  pub has-patched :
      (dto : Row)
      → has "userId" dto ≡ false
      → has "userId" (defined (spread dto (patched env zone user dto))) ≡ false
  has-patched dto h =
      has-defined "userId" (spread dto (patched env zone user dto))
        (has-append "userId" (patched env zone user dto) dto (ground arith) h)

module _ (env : Env) (user : String) where
  pub has-dated :
      (dto : Row)
      → has "userId" dto ≡ false
      → has "userId" (defined (spread dto (dated env user dto))) ≡ false
  has-dated dto h = has-defined "userId" (spread dto (dated env user dto)) (
      has-append "userId" (dated env user dto) dto
        (elim (Bool-cases (truthy (get "date" dto))) [ inl e ↦ rw e refl | inr e ↦ rw e refl ]) h)

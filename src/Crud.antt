-- ===== src/Crud.antt =====
-- common/crud/seq.service.ts and common/crud/scoped-crud.service.ts, with common/pagination.ts.
pub mod Isolation
pub mod Life
pub mod Rows
pub mod Keeps
pub mod Scoped
pub mod Reads
use planner_api.Common.{
  ℕ, zero, suc, ◌+◌, ◌-◌, ◌*◌, ◌/◌, max, String, Bool, true, false, not, Option, none, some, List,
  [], ◌∷◌, ◌++◌, ◌==◌, ltb, take, drop, if◌then◌else◌,
}
use planner_api.Store.Value.{
  Value, undefined, null, str, date, big, Row, get, spread, or_else, truthy, text,
}
use planner_api.Store.Query.{Condition, Where, put, equals, is_null}
use planner_api.Store.Db.{not_found, bad_request, ok, Db, Order}
use planner_api.Store.Action.{
  Action, World, pure, throw, ◌>>=◌, ◌>>◌, Env, now, random_uuid, counter,
}
use planner_api.Store.Action

-- SeqService.allocate, which is also SyncService.allocateSeq: the value before the block.
unfoldable pub allocate : String → ℕ → Action ℕ
allocate user n s =
    let base = counter (s.db.last_seq user) in
    (
      ok base,
      record s {
        db = record s.db { last_seq = λ u. if user == u then some (base + n) else s.db.last_seq u };
      },
    )

-- SeqService.next
unfoldable pub next : String → Action ℕ
next user = do base ← allocate user 1; pure (base + 1)

pub record Paginated : Type 0 where
  pub items : List Row
  pub page : ℕ
  pub page_size : ℕ
  pub total : ℕ
  pub total_pages : ℕ

-- `Math.ceil(total / pageSize)`, for a positive page size.
abbrev pub div_ceil : ℕ → ℕ → ℕ
div_ceil n d = (n + (d - 1)) / d

unfoldable pub paginated : List Row → ℕ → ℕ → ℕ → Paginated
paginated items total page page_size = record {
  items = items;
  page = page;
  page_size = page_size;
  total = total;
  total_pages = max 1 (div_ceil total page_size);
}

unfoldable pub page_skip : ℕ → ℕ → ℕ
page_skip page page_size = (page - 1) * page_size

pub record ListOptions : Type 0 where
  pub page : Option ℕ
  pub page_size : Option ℕ
  pub include_deleted : Bool

-- `option ?? default`
abbrev pub get_or {ℓ} : {A : Type ℓ} → Option A → A → A
get_or none a = a
get_or (some b) a = b

unfoldable pub scope : String → Where → Bool → Where
scope user w include_deleted =
    let owned = put "userId" (equals (str user)) w in
    if include_deleted then owned else put "deletedAt" is_null owned

abbrev pub or_throw : Option Row → Action Row → Action Row
or_throw none failed = failed
or_throw (some r) failed = pure r

module _ (env : Env) where
  unfoldable pub list : String → String → ListOptions → Where → Order → Action Paginated
  list model user options w le = do
    let page = get_or options.page 1
    let size = get_or options.page_size 25
    let filter = scope user w options.include_deleted
    found ← Action.find_many env model filter le
    total ← Action.count env model filter
    pure (paginated (take size (drop (page_skip page size) found)) total page size)

  unfoldable pub find_one : String → String → String → Bool → Action Row
  find_one model user id include_deleted = do
    row ← Action.find_first env model (scope user (("id", equals (str id)) ∷ []) include_deleted)
    or_throw row (throw (not_found model))

  -- `data.id ?? randomUUID()`: the right side runs only if the left one is null or undefined.
  abbrev pub id_or_uuid : Value → Action Value
  id_or_uuid undefined = do u ← random_uuid env; pure (str u)
  id_or_uuid null = do u ← random_uuid env; pure (str u)
  id_or_uuid v = pure v

  unfoldable pub create : String → String → Row → Action Row
  create model user columns = do
    t ← now env
    seq ← next user
    id ← id_or_uuid (get "id" columns)
    Action.create env model (
        spread columns (
          ("id", id)
          ∷ ("userId", str user)
          ∷ ("createdAt", date t)
          ∷ ("updatedAt", date t)
          ∷ ("seq", big seq)
          ∷ []))

  unfoldable pub update : String → String → String → Row → Action Row
  update model user id columns = do
    find_one model user id false
    seq ← next user
    t ← now env
    Action.update env model id (spread columns (("updatedAt", date t) ∷ ("seq", big seq) ∷ []))

  -- The soft delete; the two columns take two readings of the clock.
  unfoldable pub remove : String → String → String → Action Row
  remove model user id = do
    find_one model user id false
    seq ← next user
    deleted ← now env
    updated ← now env
    Action.update env model id
        (("deletedAt", date deleted) ∷ ("updatedAt", date updated) ∷ ("seq", big seq) ∷ [])

  unfoldable pub restore : String → String → String → Action Row
  restore model user id = do
    find_one model user id true
    seq ← next user
    t ← now env
    Action.update env model id (("deletedAt", null) ∷ ("updatedAt", date t) ∷ ("seq", big seq) ∷ [])

  abbrev pub refuse_none : Option Row → String → Action (Unit {0})
  refuse_none none model = throw (bad_request model)
  refuse_none (some _) model = pure tt

  -- The lookup of `assertOwnedOrNull`, for an id that is there.
  unfoldable pub assert_owned : String → String → String → Action (Unit {0})
  assert_owned user model id = do
    found ←
        Action.find_first env model
          (("id", equals (str id)) ∷ ("userId", equals (str user)) ∷ ("deletedAt", is_null) ∷ [])
    refuse_none found model

  unfoldable pub assert_owned_or_null : String → String → Value → Action (Unit {0})
  assert_owned_or_null user model id =
      if truthy id then assert_owned user model (text id) else pure tt

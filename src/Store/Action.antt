-- ===== src/Store/Action.antt =====
-- A handler as an action: it reads and changes the world, and returns or throws. What it did before
-- it threw stays done, but for the database inside `$transaction`.
use planner_api.Common.{ℕ, ◌+◌, String, Bool, true, false, Option, none, some, List}
use planner_api.Store.Value.{Value, Row}
use planner_api.Store.Query.{Where}
use planner_api.Store.Db.{Exception, Result, ok, err, Db, Order, Prisma}

-- A call of Firebase or of the object store.
pub data Call : Type 0 where
  delete_user delete_object head_object : String → Call
  sign_upload sign_download : String → Call

-- `CachedPrincipal` of UsersService.
pub record CachedPrincipal : Type 0 where
  pub id : String
  pub firebase_uid : String
  pub email : Value
  pub anonymous : Bool
  pub cached_at : ℕ

-- The database, the principal cache, how often the clock and `randomUUID` were read, and the calls
-- of other services, the latest in front.
pub record World : Type 0 where
  pub db : Db
  pub principals : List (String × CachedPrincipal)
  pub times : ℕ
  pub uuids : ℕ
  pub calls : List Call

abbrev pub Action : Type 0 → Type 0
Action A = World → Result A × World

module _ {A : Type 0} where
  unfoldable pub pure : A → Action A
  pure a s = (ok a, s)

  unfoldable pub throw : Exception → Action A
  throw e s = (err e, s)

  abbrev pub settle : Db → Result A × World → Result A × World
  settle d (ok a, s) = (ok a, s)
  settle d (err e, s) = (err e, record s { db = d })

  -- `prisma.$transaction`: all of the database changes, or none.
  unfoldable pub transaction : Action A → Action A
  transaction m s = settle s.db (m s)

module _ {A B : Type 0} where
  abbrev pub continue : Result A × World → (A → Action B) → Result B × World
  continue (ok a, s) f = f a s
  continue (err e, s) f = (err e, s)

  infixl 5 ◌>>=◌ ◌>>◌
  -- Opening this opens `pure` and `throw` too.
  unfoldable pub ◌>>=◌ : Action A → (A → Action B) → Action B
  unfolding pure throw
  ◌>>=◌ m f s = continue (m s) f

  abbrev pub ◌>>◌ : Action A → Action B → Action B
  m >> k = m >>= λ _. k

-- A computation that may throw, as a step of a handler.
abbrev pub lift : {A : Type 0} → Result A → Action A
lift (ok a) = pure a
lift (err e) = throw e

-- `if (test) throw …`
unfoldable pub throw_if : Bool → Exception → Action (Unit {0})
throw_if true e = throw e
throw_if false e = pure tt

-- What the process is given from outside: the client of the database, the clock, `randomUUID` and
-- what `new Date` makes of a text or a number (`none` for an invalid date).
pub record Env : Type 0 where
  pub prisma : Prisma
  pub time : ℕ → ℕ
  pub uuid : ℕ → String
  pub new_date : Value → Option ℕ

module _ (env : Env) where
  open env use {prisma, time, uuid}

  -- `new Date()`
  unfoldable pub now : Action ℕ
  now s = (ok (time s.times), record s { times = s.times + 1 })

  unfoldable pub random_uuid : Action String
  random_uuid s = (ok (uuid s.uuids), record s { uuids = s.uuids + 1 })

  unfoldable pub find_first : String → Where → Action (Option Row)
  find_first m w s = (ok (prisma.find_first m w s.db), s)

  unfoldable pub find_many : String → Where → Order → Action (List Row)
  find_many m w le s = (ok (prisma.find_many m w le s.db), s)

  unfoldable pub count : String → Where → Action ℕ
  count m w s = (ok (prisma.count m w s.db), s)

  unfoldable pub create : String → Row → Action Row
  create m columns s = let (r, d) = prisma.create m columns s.db in (r, record s { db = d })

  unfoldable pub update : String → String → Row → Action Row
  update m id columns s = let (r, d) = prisma.update m id columns s.db in (r, record s { db = d })

  unfoldable pub delete_many : String → Where → Action ℕ
  delete_many m w s = let (n, d) = prisma.delete_many m w s.db in (n, record s { db = d })

-- The `INSERT … ON CONFLICT DO UPDATE … RETURNING` of SeqService.allocate and
-- SyncService.allocateSeq, less the count: the value before the reserved block.
abbrev pub counter : Option ℕ → ℕ
counter none = 0
counter (some n) = n

-- ===== src/Sync/Pull.antt =====
-- modules/sync/sync.service.ts: `pull`, and the cursor of sync.controller.ts.
pub mod Page
pub mod Cursor
use planner_api.Common.{
  ℕ, zero, suc, ◌+◌, min, String, ◌≡◌, Bool, true, false, ◌||◌, Option, none, some, List, [], ◌∷◌,
  ◌++◌, map, ◌==◌, leb, ltb, length, take, if◌then◌else◌,
}
use planner_api.Store.Value.{Value, undefined, null, str, date, big, Row, seq_of, truthy, text}
use planner_api.Store.Query.{Where, equals, seq_gt}
use planner_api.Store.Db.{Db, Order, ok}
use planner_api.Store.Action.{Action, World, pure, ◌>>=◌, ◌>>◌, Env, now}
use planner_api.Sync.Registry.{TableSchema}
use planner_api.Sync.Push.{touch_client}

-- An item of `collected`.
pub record Entry : Type 0 where
  pub table : String
  pub seq : ℕ
  pub row : Row

pub record SyncPullResult : Type 0 where
  pub changes : List (String × List Row)
  pub cursor : ℕ
  pub has_more : Bool
  pub count : ℕ

-- `orderBy: { seq: 'asc' }`
abbrev pub by_seq : Order
by_seq a b = leb (seq_of a) (seq_of b)

abbrev pub above : String → ℕ → Where
above user since = ("userId", equals (str user)) ∷ ("seq", seq_gt since) ∷ []

abbrev pub entry : String → Row → Entry
entry name r = record { table = name; seq = seq_of r; row = r }

abbrev pub entries : String → List Row → List Entry
entries name [] = []
entries name (r ∷ rs) = entry name r ∷ entries name rs

-- `collected.sort(…)` is stable.
pub insert_entry : Entry → List Entry → List Entry
insert_entry a [] = a ∷ []
insert_entry a (b ∷ l) =
    let rest = insert_entry a l in if leb a.seq b.seq then a ∷ b ∷ l else b ∷ rest

pub sort_entries : List Entry → List Entry
unfolding insert_entry
sort_entries [] = []
sort_entries (a ∷ l) = insert_entry a (sort_entries l)

-- `(changes[entry.table] ??= []).push(entry.row)`
abbrev push_row : String → Row → List (String × List Row) → List (String × List Row)
push_row t r [] = (t, r ∷ []) ∷ []
push_row t r ((u, rs) ∷ l) =
    let rest = push_row t r l in if u == t then (u, rs ++ r ∷ []) ∷ l else (u, rs) ∷ rest

abbrev group_from : List (String × List Row) → List Entry → List (String × List Row)
group_from acc [] = acc
group_from acc (e ∷ es) = group_from (push_row e.table e.row acc) es

-- The seq of the last entry, or `since`.
abbrev pub last_seq_of : ℕ → List Entry → ℕ
last_seq_of since [] = since
last_seq_of since (e ∷ []) = e.seq
last_seq_of since (e ∷ f ∷ es) = last_seq_of since (f ∷ es)

module _ (env : Env) (user : String) (since cap : ℕ) (d : Db) where
  -- The rows of one table, less the one that only tells that there are more.
  abbrev pub in_range : TableSchema → List Row
  in_range t = env.prisma.find_many t.definition.delegate (above user since) by_seq d

  -- The loop over the tables: `collected`, and `truncated`.
  unfoldable pub collected : List TableSchema → List Entry
  collected [] = []
  collected (t ∷ ts) =
      entries t.definition.name (take cap (take (cap + 1) (in_range t))) ++ collected ts

  unfoldable pub truncated : List TableSchema → Bool
  truncated [] = false
  truncated (t ∷ ts) = ltb cap (length (take (cap + 1) (in_range t))) || truncated ts

  unfoldable pub page : List TableSchema → List Entry
  unfolding collected sort_entries
  page tables = take cap (sort_entries (collected tables))

  unfoldable pub result : List TableSchema → SyncPullResult
  unfolding page truncated
  result tables = record {
    changes = group_from [] (page tables);
    cursor = last_seq_of since (page tables);
    has_more = truncated tables || ltb cap (length (collected tables));
    count = length (page tables);
  }

-- `tables` is `registry.tables`, and `max_pull_rows` the configured cap.
unfoldable pub pull : Env → List TableSchema → ℕ → String → ℕ → ℕ → Value → Action SyncPullResult
unfolding result
pull env tables max_pull_rows user since limit device s =
    let r = result env user since (min limit max_pull_rows) s.db tables in
    (if truthy device
        then (do
          t ← now env
          touch_client env user (text device)
              (("lastPulledSeq", big r.cursor) ∷ ("lastPulledAt", date t) ∷ [])
              (("userId", str user)
                ∷ ("deviceId", device)
                ∷ ("platform", null)
                ∷ ("appVersion", null)
                ∷ ("lastPulledSeq", big r.cursor)
                ∷ ("lastPulledAt", date t)
                ∷ ("lastPushedAt", null)
                ∷ [])
          pure r)
        else pure r)
      s

-- `parseCursor`: `BigInt` reads the text or throws; what is no number of at least 0 is 0.
pub data BigInt : Type 0 where
  nonneg : ℕ → BigInt
  negative : ℕ → BigInt

abbrev cursor_of : Option BigInt → ℕ
cursor_of none = 0
cursor_of (some (nonneg n)) = n
cursor_of (some (negative n)) = 0

unfoldable pub parse_cursor : (String → Option BigInt) → Value → ℕ
parse_cursor big_int value = if truthy value then cursor_of (big_int (text value)) else 0

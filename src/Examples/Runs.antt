-- ===== src/Examples/Runs.antt =====
-- Runs of the operations on a small database: each theorem applied at concrete values.
use planner_api.Common.{
  ◌≤◌, ◌<◌, ap, sym, ◌∙◌, Bool-cases, if◌then◌else◌, ℕ, ◌+◌, String, ◌≡◌, refl, true, false, Option,
  none, some, List, [], ◌∷◌, ◌==◌, All, Occurs, inl, inr, ◌⊎◌, filter, arith,
}
use planner_api.Store.Value.{str, date, big, null, Row, get, is_undefined, id_of}
use planner_api.Store.Query.{matches, value_eq}
use planner_api.Store.Db.{Db, ok, bad_request, lookup}
use planner_api.Store.Action.{World, Env, counter, ◌>>=◌, pure, now, find_first}
use planner_api.Store.Action
use planner_api.Crud
use planner_api.Crud.Isolation.{Isolated}
use planner_api.Crud.Life.{live, find, remove, restore, run_machine}
use planner_api.Crud.Life.Runs.{run, run_refines}
use planner_api.Crud.Scoped.{crud-Isolated}
use planner_api.Sync.Registry.{TableSchema, coerce, coerce_entries, coerce_value}
use planner_api.Sync.Registry.Checks.{coerce-IsChecked, keys, is_kept, IsChecked}
use planner_api.Sync.Push.{
  Reason, refused, SyncChange, SyncPush, SyncPushResult, Progress, upsert, not_owned, push,
  apply_change, push_batch, touch_client,
}
use planner_api.Sync.Push.Steps.{push-Isolated}
use planner_api.Sync.Push.Batch.{push-IsCounted, push_atomic, IsCounted}
use planner_api.Sync.Push.Replay.{apply_change-replay}
use planner_api.Sync.Pull.{result, page, entry}
use planner_api.Sync.Pull.Cursor.{IsMissed}
use planner_api.Sync.Pull.Cursor.Progress.{
  SeqsDiffer, pull-IsComplete, pull-IsBounded, pull-Advances,
}
use planner_api.Examples.Memory.{memory}

abbrev pub small_env : Env
small_env = record {
  prisma = memory (λ s q. s == q);
  time = λ n. 1000 + n;
  uuid = λ n. "fresh";
  new_date = λ v. some 500;
}

abbrev ann_note : Row
ann_note =
    ("id", str "n1")
    ∷ ("userId", str "ann")
    ∷ ("title", str "milk")
    ∷ ("deletedAt", null)
    ∷ ("updatedAt", date 400)
    ∷ ("seq", big 3)
    ∷ []

abbrev bob_note : Row
bob_note = ("id", str "n2") ∷ ("userId", str "bob") ∷ ("seq", big 7) ∷ []

abbrev ann_task : Row
ann_task =
    ("id", str "t1")
    ∷ ("userId", str "ann")
    ∷ ("status", str "next")
    ∷ ("title", str "file the return")
    ∷ ("deletedAt", null)
    ∷ ("seq", big 2)
    ∷ []

abbrev pub small_db : Db
small_db = record {
  rows = λ m.
      if m == "note"
      then ("n1", ann_note) ∷ ("n2", bob_note) ∷ []
      else if m == "task"
      then ("t1", ann_task) ∷ []
      else [];
  last_seq = λ u. if u == "ann" then some 3 else none;
  clients = λ u. [];
}

abbrev pub small_world : World
small_world = record { db = small_db; principals = []; times = 0; uuids = 0; calls = [] }

abbrev pub notes : TableSchema
notes = record {
  definition = record { name = "notes"; model = "Note"; delegate = "note"; order = 10 };
  writable =
      (
        "title",
        record {
          type_name = "String";
          is_enum = false;
          is_required = true;
          has_default = false;
          enum_values = none;
        },
      )
      ∷ [];
  required_on_create = "title" ∷ [];
}

abbrev pub new_title : Row
new_title = ("title", str "bread") ∷ []

crud-Isolated_example :
    Isolated "ann" small_db (Crud.create small_env "note" "ann" new_title small_world).1.db
    × Isolated "ann" small_db (Crud.update small_env "note" "ann" "n1" new_title small_world).1.db
    × Isolated "ann" small_db (Crud.remove small_env "note" "ann" "n1" small_world).1.db
    × Isolated "ann" small_db (Crud.restore small_env "note" "ann" "n1" small_world).1.db
crud-Isolated_example = crud-Isolated small_env "note" "ann" "n1" new_title small_world refl refl

abbrev change : String → Row → SyncChange
change id columns = record {
  table = "notes";
  id = id;
  op = upsert;
  updated_at = "noon";
  columns = some columns;
}

abbrev batch : List SyncChange → SyncPush
batch cs = record { device_id = "phone"; platform = null; app_version = null; changes = cs }

push-Isolated_example :
    Isolated "ann" small_db
      (push small_env
        (notes ∷ [])
        (λ a b. true)
        "ann"
        (batch (change "n1" new_title ∷ []))
        small_world).1.db
push-Isolated_example =
    push-Isolated small_env (notes ∷ []) (λ a b. true) "ann" (batch (change "n1" new_title ∷ []))
      small_world

-- Two changes, one of a foreign row.
abbrev two_changes : SyncPush
two_changes = batch (change "n1" new_title ∷ change "n2" new_title ∷ [])

abbrev two_reports : SyncPushResult
two_reports = record {
  applied = 1;
  skipped = 1;
  conflicts =
      record { table = "notes"; id = "n2"; reason = not_owned; server_updated_at = none } ∷ [];
  cursor = 4;
}

push-IsCounted_example : IsCounted 2 3 two_reports
unfolding push ◌>>=◌ memory Action.transaction push_batch Crud.allocate find_first matches coerce
    coerce_entries coerce_value Action.update now touch_client
push-IsCounted_example =
    push-IsCounted small_env (notes ∷ []) (λ a b. true) "ann" two_changes small_world two_reports
      refl

abbrev unknown_column : SyncPush
unknown_column = batch (change "n1" (("colour", str "red") ∷ []) ∷ [])

push_atomic_example :
    (push small_env (notes ∷ []) (λ a b. true) "ann" unknown_column small_world).1.db ≡ small_db
unfolding push ◌>>=◌ memory Action.transaction push_batch Crud.allocate find_first matches coerce
    coerce_entries
push_atomic_example =
    push_atomic small_env (notes ∷ []) (λ a b. true) "ann" unknown_column small_world
      (bad_request "colour") refl

coerce-IsChecked_example :
    (keys new_title ≡ filter is_kept (keys (("id", str "n1") ∷ new_title)))
    × All (λ e. IsChecked notes e.0 e.1) new_title
    × (true ≡ true → All (λ f. is_undefined (get f new_title) ≡ false) notes.required_on_create)
unfolding coerce coerce_entries coerce_value
coerce-IsChecked_example =
    coerce-IsChecked (λ v. some 500) notes (("id", str "n1") ∷ new_title) true new_title refl

abbrev start : Progress
start = record { seq = 3; applied = 0; conflicts = [] }

abbrev after_once : Progress
after_once = record { seq = 4; applied = 1; conflicts = [] }

apply_change-replay_example :
    (r : Reason) × (at : Option ℕ) × (apply_change small_env
        (notes ∷ [])
        "ann"
        (change "n1" new_title)
        after_once
        (apply_change small_env (notes ∷ []) "ann" (change "n1" new_title) start small_world).1
      ≡ (
        ok (refused (change "n1" new_title) r at after_once),
        (apply_change small_env (notes ∷ []) "ann" (change "n1" new_title) start small_world).1,
      ))
unfolding apply_change ◌>>=◌ memory find_first matches coerce coerce_entries coerce_value
    Action.update
apply_change-replay_example =
    apply_change-replay small_env (notes ∷ []) "ann" (change "n1" new_title) start after_once
      after_once small_world refl refl

pull-IsBounded_example :
    ((result small_env "ann" 0 10 small_db (notes ∷ [])).count ≤ 10)
    × (0 ≤ (result small_env "ann" 0 10 small_db (notes ∷ [])).cursor)
pull-IsBounded_example = pull-IsBounded small_env (notes ∷ []) "ann" 0 10 small_db

-- Ann's second note, so that a page of one entry leaves one.
abbrev next_note : Row
next_note = ("id", str "n3") ∷ ("userId", str "ann") ∷ ("seq", big 4) ∷ []

abbrev longer_db : Db
longer_db = record small_db {
  rows =
      λ m. if m == "note" then ("n1", ann_note) ∷ ("n2", bob_note) ∷ ("n3", next_note) ∷ [] else [];
}

pull-Advances_example : 0 < (result small_env "ann" 0 1 longer_db (notes ∷ [])).cursor
unfolding result memory matches
pull-Advances_example = pull-Advances small_env (notes ∷ []) "ann" 0 1 longer_db (omega arith) refl

found_among :
    (k : String) (a b q : Row) → lookup k (("n1", a) ∷ ("n2", b) ∷ []) ≡ some q → (q ≡ a) ⊎ (q ≡ b)
found_among k a b q h = elim (Bool-cases ("n1" == k)) [
  | inl e ↦ inl (ground (arith, e, h))
  | inr e ↦ inr (ground (arith, e, h))
]

false_is_not_true : false ≡ true → ⊥
false_is_not_true e = cc

bob_is_not_ann : str "bob" ≡ str "ann" → ⊥
bob_is_not_ann e = false_is_not_true (ap (λ v. value_eq v (str "ann")) e)

ann_only : (q : Row) → IsMissed small_env "ann" 0 10 small_db notes q → q ≡ ann_note
ann_only q (there, own, after) = elim (found_among (id_of q) ann_note bob_note q there) [
  | inl e ↦ e
  | inr e ↦ absurd (bob_is_not_ann (sym (ap (get "userId") e) ∙ own))
]

ann_seqs : SeqsDiffer small_env (notes ∷ []) "ann" 0 10 small_db
ann_seqs t u q r (inl p) (inl p') h k same =
    let left : q ≡ ann_note = ann_only q (rw p at h) in
    let right : r ≡ ann_note = ann_only r (rw p' at k) in
    rw p (rw p' (ap (entry "notes") (left ∙ sym right)))
ann_seqs t u q r (inr o) p h k same = absurd o
ann_seqs t u q r (inl p) (inr o) h k same = absurd o

pull-IsComplete_example :
    Occurs (entry "notes" ann_note) (page small_env "ann" 0 10 small_db (notes ∷ []))
    ⊎ (((result small_env "ann" 0 10 small_db (notes ∷ [])).cursor < 3)
        × ((result small_env "ann" 0 10 small_db (notes ∷ [])).has_more ≡ true))
pull-IsComplete_example =
    pull-IsComplete small_env (notes ∷ []) "ann" 0 10 small_db notes ann_note ann_seqs (inl refl)
      (refl, refl, omega arith)

run_refines_example :
    run small_env "note" "ann" "n1" (remove ∷ find ∷ remove ∷ restore ∷ find ∷ []) small_world
    ≡ (true ∷ false ∷ false ∷ true ∷ true ∷ [], live)
unfolding run_machine
run_refines_example =
    run_refines small_env "note" "ann" "n1" (remove ∷ find ∷ remove ∷ restore ∷ find ∷ [])
      small_world

-- ===== src/Examples/Requests.antt =====
-- Requests to the API: a validation that does what is documented of the pipe, the allowed origins of
-- a deployment, and requests from end to end.
use mathlib.Core.Bool.{false≢true}
use planner_api.Common.{
  String, ◌≡◌, refl, ap, sym, ◌∙◌, Bool, true, false, not, some, List, [], ◌∷◌, ◌==◌, if◌then◌else◌,
  filter, inl, inr, Bool-cases, eq_iff,
}
use planner_api.Store.Value.{str, Row, get, has}
use planner_api.Store.Db.{ok, err, bad_request}
use planner_api.Common.{◌↔◌, Occurs}
use planner_api.Common.Int.{difference}
use text.Mathlib.TextLemmas.{cons≢nil}
use planner_api.Tasks.{any_order}
use planner_api.Users.Guard.{can_activate}
use planner_api.Origins.{origin_matcher, parse_allowed_origins}
use planner_api.Origins.Parts.{Allows}
use planner_api.Origins.Patterns.{origin_matcher-Allows}
use planner_api.Origins.Boundaries.{boundaries, origin_matcher-boundaries}
use planner_api.Sync.Pull.{SyncPullResult, pull, result}
use planner_api.Sync.Push.{touch_client}
use planner_api.Store.Action.{◌>>=◌, now, pure}
use planner_api.Sync.Status.{SyncStatus, ClientStatus, status, counter_of, status-pull}
use planner_api.Requests.Tasks.{update}
use planner_api.Requests.Serve.{Request, task, serve}
use planner_api.Requests.Serve.Owners.{KeepsRowId, IsServed, serve-IsServed}
use planner_api.Requests.Dtos.Tasks.{update_task_dto}
use planner_api.Examples.Memory.{memory}
use planner_api.Examples.Runs.{small_env, small_world, small_db, notes}
use planner_api.Examples.Dates.{utc}
use planner_api.Examples.Worlds.{firebase, world}
use planner_api.Examples.Accounts.{world-CacheIsRight}
use planner_api.Requests.Dto.{Field, Dto, fields, declares}
use planner_api.Requests.Validation.{Pipe, Validates, passes, rules_in}

abbrev kept : Dto → Row → Row
kept d body = filter (λ e. declares d e.0) body

abbrev all_pass : List Field → Row → Bool
all_pass [] out = true
all_pass (f ∷ fs) out =
    let rest = all_pass fs out in if passes f.rules (get f.name out) then rest else false

-- A pipe that drops what is not declared and checks what is left.
abbrev pub pipe : Pipe
pipe = record {
  transform = λ d body.
      if all_pass (fields d) (kept d body) then ok (kept d body) else err (bad_request "invalid");
  is_uuid = λ s. not (s == "");
}

has-kept : (d : Dto) (k : String) (body : Row) → declares d k ≡ false → has k (kept d body) ≡ false
has-kept d k [] h = refl
has-kept d k ((j, v) ∷ body) h = elim (Bool-cases (declares d j)) [
  | inr out ↦ rw out (has-kept d k body h)
  | inl inside ↦ elim (Bool-cases (j == k)) [
    | inr other ↦ rw inside (rw other (has-kept d k body h))
    | inl same ↦ absurd (false≢true (sym h ∙ ap (declares d) (sym ((eq_iff j k).0 same)) ∙ inside))
  ]
]

all_pass-rules_in :
    (l : List Field) (out : Row) (k : String)
    → all_pass l out ≡ true
    → passes (rules_in k l) (get k out) ≡ true
all_pass-rules_in [] out k h = refl
all_pass-rules_in (f ∷ fs) out k h =
    go (passes f.rules (get f.name out)) refl h (all_pass-rules_in fs out k)
  where
    go :
        (b : Bool)
        → passes f.rules (get f.name out) ≡ b
        → (if b then all_pass fs out else false) ≡ true
        → (all_pass fs out ≡ true → passes (rules_in k fs) (get k out) ≡ true)
        → passes (rules_in k (f ∷ fs)) (get k out) ≡ true
    go false e h rec = cc
    go true e h rec = elim (Bool-cases (f.name == k)) [
      | inl same ↦
          rw same (ap (λ n. passes f.rules (get n out)) (sym ((eq_iff f.name k).0 same)) ∙ e)
      | inr other ↦ rw other (rec h)
    ]

let_through :
    (d : Dto) (body out : Row)
    → pipe.transform d body ≡ ok out
    → (all_pass (fields d) (kept d body) ≡ true) × (kept d body ≡ out)
let_through d body out e = go (all_pass (fields d) (kept d body)) refl e
  where
    go :
        (b : Bool)
        → all_pass (fields d) (kept d body) ≡ b
        → (if b then ok (kept d body) else err (bad_request "invalid")) ≡ ok out
        → (all_pass (fields d) (kept d body) ≡ true) × (kept d body ≡ out)
    go true e f = (e, cc)
    go false e f = cc

pub pipe-Validates : Validates pipe
pipe-Validates = record {
  whitelisted = λ d body out e k h. rw (← (let_through d body out e).1) (has-kept d k body h);
  checked = λ d body out e k.
      let (passed, same) = let_through d body out e in
      rw (← same) (all_pass-rules_in (fields d) (kept d body) k passed);
}

-- A patch that also names an owner.
abbrev patch : Row
patch = ("title", str "milk") ∷ ("userId", str "u1") ∷ []

abbrev renaming : Request
renaming = task (update "t1" patch)

abbrev allowed : List String
allowed =
    "https://memory.dave.com.et" ∷ "https://planner-web-*.vercel.app" ∷ "http://localhost:3000" ∷ []

names_no_id : KeepsRowId pipe renaming
unfolding fields
names_no_id dto e = rw (← (let_through update_task_dto patch dto e).1) refl

serve-IsServed_example :
    IsServed small_env utc firebase pipe any_order
      (some "Bearer guest")
      world
      (can_activate small_env firebase false (some "Bearer guest") world)
      (serve small_env utc firebase pipe any_order (some "Bearer guest") renaming world)
serve-IsServed_example =
    serve-IsServed small_env utc firebase pipe any_order (some "Bearer guest") renaming world
      pipe-Validates names_no_id world-CacheIsRight

origin_matcher-Allows_example :
    (origin_matcher allowed (some "https://planner-web-git-main-dave.vercel.app") ≡ true)
    ↔ Allows allowed (some "https://planner-web-git-main-dave.vercel.app")
origin_matcher-Allows_example =
    origin_matcher-Allows allowed (some "https://planner-web-git-main-dave.vercel.app")

origin_matcher-boundaries_example :
    (entry : String) × Occurs entry allowed
    × (boundaries "https://planner-web-abc.vercel.app" ≡ boundaries entry)
unfolding origin_matcher
origin_matcher-boundaries_example =
    origin_matcher-boundaries allowed "https://planner-web-abc.vercel.app" cons≢nil refl

-- The specification's tests of the matcher.
refused_scheme : origin_matcher allowed (some "http://planner-web-x.vercel.app") ≡ false
unfolding origin_matcher
refused_scheme = refl

refused_port : origin_matcher allowed (some "https://planner-web-x.vercel.app:8443") ≡ false
unfolding origin_matcher
refused_port = refl

refused_empty : origin_matcher allowed (some "https://planner-web-.vercel.app") ≡ false
unfolding origin_matcher
refused_empty = refl

parsed_origins :
    parse_allowed_origins (some " https://a.example ,, https://b.example ")
    ≡ "https://a.example" ∷ "https://b.example" ∷ []
unfolding parse_allowed_origins
parsed_origins = refl

abbrev pulled : SyncPullResult
pulled = result small_env "ann" 0 10 small_db (notes ∷ [])

status-pull_example :
    (x : SyncStatus) × ((status
        (notes ∷ [])
        (λ l. l)
        "ann"
        (pull small_env (notes ∷ []) 10 "ann" 0 10 (str "phone") small_world).1).0
      ≡ ok x)
    × (x.cursor ≡ counter_of (small_world.db.last_seq "ann"))
    × (c : ClientStatus) × Occurs c x.clients
    × (c.device_id ≡ "phone")
    × (c.last_pulled_seq ≡ pulled.cursor)
    × (c.behind_by ≡ difference x.cursor pulled.cursor)
unfolding pull ◌>>=◌ now touch_client pure memory
status-pull_example =
    status-pull small_env (notes ∷ []) 10 "ann" 0 10 (str "phone") (λ l. l) pulled small_world refl
      refl (λ a l o. o) refl

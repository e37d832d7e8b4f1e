-- ===== src/Sync/Status.antt =====
-- modules/sync/sync.service.ts: `status`, and how far a device is behind.
use planner_api.Common.{
  min, ℕ, String, ◌≡◌, refl, ap, ◌∙◌, true, Option, none, some, List, [], ◌∷◌, map, ◌==◌, Occurs,
  inl, inr, Bool-cases, eq_refl,
}
use planner_api.Common.Int.{ℤ, difference}
use planner_api.Store.Value.{Value, big, date, str, null, Row, get, text, truthy}
use planner_api.Store.Db.{ok, lookup, put_entry}
use planner_api.Store.Action.{Action, World, Env, now, ◌>>=◌, pure}
use planner_api.Sync.Registry.{TableSchema}
use planner_api.Sync.Push.{touch_client, upserted}
use planner_api.Sync.Pull.{SyncPullResult, result, pull}

-- A device's line; the numbers are sent as decimal texts.
pub record ClientStatus : Type 0 where
  pub device_id : String
  pub platform : Value
  pub app_version : Value
  pub last_pulled_seq : ℕ
  pub last_pulled_at : Value
  pub last_pushed_at : Value
  pub behind_by : ℤ

pub record SyncStatus : Type 0 where
  pub cursor : ℕ
  pub tables : List String
  pub clients : List ClientStatus

-- `state?.lastSeq ?? 0n`
abbrev pub counter_of : Option ℕ → ℕ
counter_of none = 0
counter_of (some n) = n

abbrev pub pulled_seq : Value → ℕ
pulled_seq (big n) = n
pulled_seq _ = 0

abbrev pub client_status : ℕ → String × Row → ClientStatus
client_status cursor (device, c) = record {
  device_id = device;
  platform = get "platform" c;
  app_version = get "appVersion" c;
  last_pulled_seq = pulled_seq (get "lastPulledSeq" c);
  last_pulled_at = get "lastPulledAt" c;
  last_pushed_at = get "lastPushedAt" c;
  behind_by = difference cursor (pulled_seq (get "lastPulledSeq" c));
}

-- The devices of a user, in the order that the database gives them: the latest update first.
abbrev pub Ordering : Type 0
Ordering = List (String × Row) → List (String × Row)

unfoldable pub status : List TableSchema → Ordering → String → Action SyncStatus
status tables latest_first user s =
    let cursor = counter_of (s.db.last_seq user) in
    (
      ok (record {
        cursor = cursor;
        tables = map (λ t. t.definition.name) tables;
        clients = map (client_status cursor) (latest_first (s.db.clients user));
      }),
      s,
    )

-- The order leaves no device out.
abbrev pub KeepsAll : Ordering → Type 0
KeepsAll latest_first =
    (a : String × Row) (l : List (String × Row)) → Occurs a l → Occurs a (latest_first l)

Occurs-map : {A B : Type 0} (f : A → B) (a : A) (l : List A) → Occurs a l → Occurs (f a) (map f l)
Occurs-map f a [] o = absurd o
Occurs-map f a (x ∷ l) (inl e) = inl (ap f e)
Occurs-map f a (x ∷ l) (inr o) = inr (Occurs-map f a l o)

Occurs-put_entry :
    {A : Type 0} (k : String) (a : A) (l : List (String × A)) → Occurs (k, a) (put_entry k a l)
Occurs-put_entry k a [] = inl refl
Occurs-put_entry k a ((j, b) ∷ l) = elim (Bool-cases (j == k)) [
  | inl e ↦ rw e (inl refl)
  | inr n ↦ rw n (inr (Occurs-put_entry k a l))
]

-- The device's row after a pull.
record Touched (user : String) (device : Value) (r : SyncPullResult) (s t : World) : Type 0 where
  pub client : Row
  pub pulled : get "lastPulledSeq" client ≡ big r.cursor
  pub clients : t.db.clients user ≡ put_entry (text device) client (s.db.clients user)
  pub counter : t.db.last_seq user ≡ s.db.last_seq user

-- What a pull writes to the row of its device, and what it creates if there is none.
abbrev changed : ℕ → ℕ → Row
changed cursor at = ("lastPulledSeq", big cursor) ∷ ("lastPulledAt", date at) ∷ []

abbrev created : String → Value → ℕ → ℕ → Row
created user device cursor at =
    ("userId", str user)
    ∷ ("deviceId", device)
    ∷ ("platform", null)
    ∷ ("appVersion", null)
    ∷ ("lastPulledSeq", big cursor)
    ∷ ("lastPulledAt", date at)
    ∷ ("lastPushedAt", null)
    ∷ []

pulled_row :
    (user : String) (device : Value) (cursor at : ℕ) (o : Option Row)
    → get "lastPulledSeq" (upserted (changed cursor at) (created user device cursor at) o)
      ≡ big cursor
pulled_row user device cursor at none = refl
pulled_row user device cursor at (some row) = refl

ok-inj : {A : Type 0} {a b : A} → ok a ≡ ok b → a ≡ b
ok-inj e = cc

pull-Touched :
    (env : Env) (tables : List TableSchema) (most : ℕ) (user : String) (since limit : ℕ)
    (device : Value) (r : SyncPullResult) (s : World)
    → truthy device ≡ true
    → env.prisma.client_error user (text device) s.db ≡ none
    → (pull env tables most user since limit device s).0 ≡ ok r
    → Touched user device r s (pull env tables most user since limit device s).1
unfolding pull touch_client now ◌>>=◌ pure
pull-Touched env tables most user since limit device r s named written e =
    let now_pulled = result env user since (min limit most) s.db tables in
    let found : ok (result env user since (min limit most) s.db tables) ≡ ok r = rw named at e in
    rw named (
      rw written (record {
        client =
            upserted (changed now_pulled.cursor (env.time s.times))
              (created user device now_pulled.cursor (env.time s.times))
              (lookup (text device) (s.db.clients user));
        pulled =
            pulled_row user device now_pulled.cursor (env.time s.times)
              (lookup (text device) (s.db.clients user))
            ∙ ap (λ x. big x.cursor) (ok-inj found);
        clients = rw (eq_refl user) refl;
        counter = refl;
      }))

-- After a pull of a device whose row could be written, the status has the device at the cursor that the pull gave it, and behind
-- by what the user's counter is ahead of that cursor.
pub status-pull :
    (env : Env) (tables : List TableSchema) (most : ℕ) (user : String) (since limit : ℕ)
    (device : Value) (latest_first : Ordering) (r : SyncPullResult) (s : World)
    → truthy device ≡ true
    → env.prisma.client_error user (text device) s.db ≡ none
    → KeepsAll latest_first
    → (pull env tables most user since limit device s).0 ≡ ok r
    → (x : SyncStatus) × ((status tables latest_first user
          (pull env tables most user since limit device s).1).0
        ≡ ok x)
      × (x.cursor ≡ counter_of (s.db.last_seq user))
      × (c : ClientStatus) × Occurs c x.clients
      × (c.device_id ≡ text device)
      × (c.last_pulled_seq ≡ r.cursor)
      × (c.behind_by ≡ difference x.cursor r.cursor)
unfolding status
status-pull env tables most user since limit device latest_first r s named written keeps e =
    let t = (pull env tables most user since limit device s).1 in
    let touched = pull-Touched env tables most user since limit device r s named written e in
    let x : SyncStatus = record {
      cursor = counter_of (t.db.last_seq user);
      tables = map (λ d. d.definition.name) tables;
      clients =
          map (client_status (counter_of (t.db.last_seq user))) (latest_first (t.db.clients user));
    } in
    let there =
      keeps (text device, touched.client) (t.db.clients user)
        (rw touched.clients (Occurs-put_entry (text device) touched.client (s.db.clients user))) in
    let pulled = ap pulled_seq touched.pulled in
    (
      x,
      refl,
      ap counter_of touched.counter,
      client_status x.cursor (text device, touched.client),
      Occurs-map (client_status x.cursor) (text device, touched.client)
          (latest_first (t.db.clients user)) there,
      refl,
      pulled,
      ap (difference x.cursor) pulled,
    )

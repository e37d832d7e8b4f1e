-- ===== src/Users/Account/Tables.antt =====
-- The tables of a guest, moved one after the other.
use planner_api.Common.{
  ℕ, ◌+◌, ◌≤◌, String, ◌≡◌, refl, ◌∙◌, true, false, some, List, [], ◌∷◌, ◌==◌, eq_iff, eq_refl,
  arith, length, All, All-Occurs, All-from_Occurs, ◌↔◌, if◌then◌else◌, Bool-cases, inl, inr, Occurs,
}
use planner_api.Store.Value.{Row, str, big, id_of}
use planner_api.Store.Query.{matches, equals, is_null, Where}
use planner_api.Store.Db.{Result, ok, err, Db, stored, Stored, store}
use planner_api.Store.Effects.{stored-store}
use planner_api.Store.Action.{Action, World, pure, continue, ◌>>=◌, ◌>>◌, Env, counter}
use planner_api.Store.Action
use planner_api.Crud.{allocate}
use planner_api.Sync.Registry.{SyncTableDef}
use planner_api.Sync.Pull.{by_seq}
use planner_api.Users.Identity.{All-imp}
use planner_api.Users.Account.{move_rows, move_found, move_table, move_tables}
use planner_api.Users.Account.Moving.{
  Agrees, IsMoved, Has, moved_columns, update_row-moved, Steps, Steps-refl, Steps-trans,
  Steps-written,
}

module _ (env : Env) (target : String) (base : ℕ) where
  -- What moving rows of a table leads to, if it returns.
  abbrev Moves : String → List Row → Db → Result (Unit {0}) × World → Type 0
  Moves model rows d (ok u, t) =
      Steps target base d t.db
      × All (λ r. Has (IsMoved target base r) (stored model (id_of r) t.db)) rows
      × ((k j : String) → (model == k) ≡ false → stored k j t.db ≡ stored k j d)
  Moves model rows d (err e, t) = Unit

  Moves-cons :
      (model : String) (r : Row) (rows : List Row) (d e : Db) (x : Result (Unit {0}) × World)
      → Steps target base d e
      → Has (IsMoved target base r) (stored model (id_of r) e)
      → ((k j : String) → (model == k) ≡ false → stored k j e ≡ stored k j d)
      → Moves model rows e x
      → Moves model (r ∷ rows) d x
  Moves-cons model r rows d e (ok u, t) step here apart (steps, all, others) = (
    Steps-trans target base d e t.db step steps,
    (steps.moved model (id_of r) r here, all),
    λ k j n. others k j n ∙ apart k j n,
  )
  Moves-cons model r rows d e (err x, t) step here apart m = tt

  move_rows-Moves :
      (model : String) (rows : List Row) (seq : ℕ) (s : World)
      → base ≤ seq
      → All (λ r. Has (Agrees r) (stored model (id_of r) s.db)) rows
      → Moves model rows s.db (move_rows env model target seq rows s)
  unfolding move_rows pure ◌>>=◌ Action.update
  move_rows-Moves model [] seq s low h = (Steps-refl target base s.db, tt, λ k j n. refl)
  move_rows-Moves model (r ∷ rows) seq s low ((q, there, same), h) =
      let new : Row = ("userId", str target) ∷ ("seq", big (seq + 1)) ∷ q in
      let e = store model (id_of r) new s.db in
      let step = Steps-written target base model (id_of r) seq q s.db low there in
      let kept =
        All-imp (λ r. Has (Agrees r) (stored model (id_of r) s.db))
          (λ r. Has (Agrees r) (stored model (id_of r) e)) rows
          (λ p k. step.agrees model (id_of p) p k) h in
      rw (env.prisma.update_lem model (id_of r) (moved_columns target seq) s.db refl) (
        rw (update_row-moved model target seq r q s.db there same) (
          Moves-cons model r rows s.db e _ step
            (
              new,
              ground (
                arith,
                stored-store model (id_of r) model (id_of r) new s.db,
                eq_refl model,
                eq_refl (id_of r),
              ),
              record {
                owned = refl;
                fresh = omega (arith, low);
                agrees = λ k u n. rw u (rw n (same k u n));
              },
            )
            (λ k j n. ground (arith, stored-store model (id_of r) k j new s.db, n))
            (move_rows-Moves model rows (seq + 1) (record s { db = e }) (omega (arith, low)) kept)))

  -- What moving a whole table leads to: each row that the guest has is moved, no other table changes.
  abbrev TableMoves : String → (Row → Type 0) → Db → Result ℕ × World → Type 0
  TableMoves model Guests d (ok n, t) =
      Steps target base d t.db
      × ((r : Row) → Guests r → Has (IsMoved target base r) (stored model (id_of r) t.db))
      × ((k j : String) → (model == k) ≡ false → stored k j t.db ≡ stored k j d)
  TableMoves model Guests d (err e, t) = Unit

  counted : Db → ℕ → Db
  counted d n = record d {
    last_seq = λ u. if target == u then some (counter (d.last_seq target) + n) else d.last_seq u;
  }

  after_rows :
      (model : String) (rows : List Row) (n m : ℕ) (d : Db) (x : Result (Unit {0}) × World)
      → Moves model rows (counted d n) x
      → TableMoves model (λ r. Occurs r rows) d (continue x (λ u. pure m))
  unfolding pure counted
  after_rows model rows n m d (ok u, t) (steps, all, others) = (
    record {
      agrees = λ k j r h. steps.agrees k j r h;
      moved = λ k j r h. steps.moved k j r h;
      old = λ k j q h u. steps.old k j q h u;
      counts = ground (arith, steps.counts, eq_refl target);
    },
    λ r o. All-Occurs (λ r. Has (IsMoved target base r) (stored model (id_of r) t.db)) r rows all o,
    others,
  )
  after_rows model rows n m d (err e, t) h = tt

  move_found-TableMoves :
      (model : String) (rows : List Row) (s : World)
      → base ≤ counter (s.db.last_seq target)
      → ((r : Row) → Occurs r rows → Stored model r s.db)
      → TableMoves model (λ r. Occurs r rows) s.db (move_found env model target rows s)
  unfolding pure allocate ◌>>=◌ counted
  move_found-TableMoves model [] s low h =
      (Steps-refl target base s.db, λ r o. absurd o, λ k j n. refl)
  move_found-TableMoves model (r ∷ rows) s low h =
      let n = length (r ∷ rows) in
      let seq = counter (s.db.last_seq target) in
      after_rows model (r ∷ rows) n n s.db _ (
        move_rows-Moves model (r ∷ rows) seq (record s { db = counted s.db n }) low
          (All-from_Occurs (λ q. Has (Agrees q) (stored model (id_of q) s.db)) (r ∷ rows)
            λ q o. (q, h q o, λ k u v. refl)))

  -- The rows that a guest brings along.
  abbrev pub guest_rows : String → Where
  guest_rows source = ("userId", equals (str source)) ∷ ("deletedAt", is_null) ∷ []

  -- A row that the guest has and has not deleted.
  abbrev pub IsGuests : String → String → Db → Row → Type 0
  IsGuests source model d r =
      Stored model r d × (matches env.prisma.like (guest_rows source) r ≡ true)

  move_table-TableMoves :
      (source model : String) (s : World)
      → base ≤ counter (s.db.last_seq target)
      → TableMoves model (IsGuests source model s.db) s.db (move_table env source target model s)
  unfolding move_table ◌>>=◌ Action.find_many
  move_table-TableMoves source model s low =
      go (move_found env model target rows s)
        (move_found-TableMoves model rows s low λ r o. ((found r).0 o).0)
    where
      rows : List Row
      rows = env.prisma.find_many model (guest_rows source) by_seq s.db

      found :
          (r : Row)
          → Occurs r rows
            ↔ (Stored model r s.db × (matches env.prisma.like (guest_rows source) r ≡ true))
      found r = env.prisma.find_many_iff model (guest_rows source) by_seq s.db r

      go :
          (x : Result ℕ × World)
          → TableMoves model (λ r. Occurs r rows) s.db x
          → TableMoves model (IsGuests source model s.db) s.db x
      go (ok n, t) (steps, all, others) = (steps, λ r g. all r ((found r).1 g), others)
      go (err e, t) h = tt

  -- What moving some tables leads to.
  abbrev pub AllMoves : String → List SyncTableDef → Db → Result ℕ × World → Type 0
  AllMoves source tables d (ok n, t) =
      Steps target base d t.db
      × ((def : SyncTableDef) (r : Row)
          → Occurs def tables
          → IsGuests source def.delegate d r
          → Has (IsMoved target base r) (stored def.delegate (id_of r) t.db))
  AllMoves source tables d (err e, t) = Unit

  pub move_tables-AllMoves :
      (source : String) (tables : List SyncTableDef) (s : World)
      → base ≤ counter (s.db.last_seq target)
      → AllMoves source tables s.db (move_tables env source target tables s)
  unfolding move_tables ◌>>=◌ pure
  move_tables-AllMoves source [] s low = (Steps-refl target base s.db, λ def r o g. absurd o)
  move_tables-AllMoves source (def ∷ tables) s low =
      first (move_table env source target def.delegate s)
        (move_table-TableMoves source def.delegate s low)
        (λ t l. move_tables-AllMoves source tables t l)
    where
      second :
          (n : ℕ) (t : World)
          → TableMoves def.delegate (IsGuests source def.delegate s.db) s.db (ok n, t)
          → (x : Result ℕ × World) → AllMoves source tables t.db x
          → AllMoves source (def ∷ tables) s.db (continue x (λ rest. pure (n + rest)))
      second n t (steps, all, others) (ok m, u) (later, rest) = (
        Steps-trans target base s.db t.db u.db steps later,
        λ d r o g. elim o [
          | inl e ↦ rw e (later.moved def.delegate (id_of r) r (all r (rw (← e) g)))
          | inr p ↦ elim (Bool-cases (def.delegate == d.delegate)) [
            | inl same ↦
                let p' = (eq_iff def.delegate d.delegate).0 same in
                rw (← p') (later.moved def.delegate (id_of r) r (all r (rw p' g)))
            | inr apart ↦ rest d r p (others d.delegate (id_of r) apart ∙ g.0, g.1)
          ]
        ],
      )
      second n t h (err e, u) k = tt

      first :
          (x : Result ℕ × World)
          → TableMoves def.delegate (IsGuests source def.delegate s.db) s.db x
          → ((t : World)
              → base ≤ counter (t.db.last_seq target)
              → AllMoves source tables t.db (move_tables env source target tables t))
          → AllMoves source (def ∷ tables) s.db (
              continue x
                (λ count. move_tables env source target tables >>= λ rest. pure (count + rest)))
      first (ok n, t) h ih =
          second n t h (move_tables env source target tables t)
            (ih t (omega (arith, low, h.0.counts)))
      first (err e, t) h ih = tt

-- ===== src/Meetings/Split.antt =====
-- What a split of the raw notes makes.
use planner_api.Common.{
  ℕ, ◌+◌, ◌&&◌, String, ◌≡◌, refl, sym, ap, ◌∙◌, Bool, false, not, Option, none, some, List, [],
  ◌∷◌, ltb, length, map, filter, ◌==◌, ◌≢◌, eq_iff, Bool-cases, inl, inr,
}
use planner_api.Common.Texts.{split_at, trim}
use mathlib.Core.Bool.{false≢true}
use planner_api.Common.Int.{pos}
use planner_api.Store.Value.{Row, str, int, get, text, spread, id_of, owner}
use planner_api.Store.Db.{Result, ok, err, defined, refuse_taken, stored}
use planner_api.Store.Action.{
  Action, World, pure, throw_if, transaction, settle, ◌>>=◌, ◌>>◌, Env, now, random_uuid,
}
use planner_api.Store.Action
use planner_api.Store.Outcome.{bind-ok, ok_same}
use planner_api.Crud.{allocate, find_one}
use planner_api.Crud.Rows.{IsFound, find_one-ok}
use planner_api.Meetings.{note_lines, note_items, retire_items, create_items, split_raw_notes}

-- A note item of the meeting for the line at the index.
pub record IsItem (user meeting_id : String) (index : ℕ) (line : String) (r : Row) : Type 0 where
  pub owned : owner r ≡ user
  pub meeting : get "meetingId" r ≡ str meeting_id
  pub content : get "content" r ≡ str line
  pub position : get "position" r ≡ int (pos index)

-- One item for each line that is not blank, with the line trimmed, in their order from the index on.
pub data AreItems (user meeting_id : String) : ℕ → List String → List Row → Type 0 where
  none_left : {index : ℕ} → AreItems user meeting_id index [] []
  blank :
      {index : ℕ} {line : String} {lines : List String} {rs : List Row}
      → trim line ≡ ""
      → AreItems user meeting_id index lines rs
      → AreItems user meeting_id index (line ∷ lines) rs
  kept :
      {index : ℕ} {line : String} {lines : List String} {r : Row} {rs : List Row}
      → trim line ≢ ""
      → IsItem user meeting_id index (trim line) r
      → AreItems user meeting_id (index + 1) lines rs
      → AreItems user meeting_id index (line ∷ lines) (r ∷ rs)

-- One item for each text.
abbrev Each : String → String → ℕ → List String → List Row → Type 0
Each user meeting_id index [] [] = Unit
Each user meeting_id index (line ∷ lines) (r ∷ rs) =
    IsItem user meeting_id index line r × Each user meeting_id (index + 1) lines rs
Each user meeting_id index _ _ = ⊥

Each-AreItems :
    (user meeting_id : String) (index : ℕ) (lines : List String) (rs : List Row)
    → Each user meeting_id index (filter (λ line. not (line == "")) (map trim lines)) rs
    → AreItems user meeting_id index lines rs
Each-AreItems user meeting_id index [] [] h = none_left
Each-AreItems user meeting_id index [] (r ∷ rs) h = absurd h
Each-AreItems user meeting_id index (line ∷ lines) rs h = elim (Bool-cases (trim line == "")) [
  | inl e ↦
      blank ((eq_iff (trim line) "").0 e) (Each-AreItems user meeting_id index lines rs (rw e at h))
  | inr e ↦ first e (Each-AreItems user meeting_id (index + 1) lines) rs (rw e at h)
]
  where
    first :
        (trim line == "") ≡ false
        → ((rs : List Row)
            → Each user meeting_id
                (index + 1)
                (filter (λ line. not (line == "")) (map trim lines))
                rs
            → AreItems user meeting_id (index + 1) lines rs)
        → (rs : List Row)
        → Each user meeting_id index
            (trim line ∷ filter (λ line. not (line == "")) (map trim lines))
            rs
        → AreItems user meeting_id index (line ∷ lines) rs
    first e rest [] h = absurd h
    first e rest (r ∷ rs) h =
        kept (λ same. false≢true (sym e ∙ (eq_iff (trim line) "").1 same)) h.0 (rest rs h.1)

created :
    (env : Env) (m : String) (columns : Row) (s : World) (r : Row)
    → (Action.create env m columns s).0 ≡ ok r
    → spread (env.prisma.defaults m) (defined columns) ≡ r
unfolding Action.create
created env m columns s r h =
    go (stored m (id_of new) s.db) (sym (ap (λ x. x.0) (env.prisma.create_lem m columns s.db)) ∙ h)
  where
    new : Row
    new = spread (env.prisma.defaults m) (defined columns)

    go : (o : Option Row) → (refuse_taken o m new s.db).0 ≡ ok r → new ≡ r
    go none e = ok_same e
    go (some q) e = cc

module _ (env : Env) (user : String) where
  create_items-Each :
      (meeting_id : String) (at : ℕ) (lines : List String) (index seq : ℕ) (s : World)
      (items : List Row)
      → (create_items env user meeting_id at lines index seq s).0 ≡ ok items
      → Each user meeting_id index lines items
  unfolding create_items pure
  create_items-Each meeting_id at [] index seq s items h = rw (← ok_same h) tt
  create_items-Each meeting_id at (line ∷ lines) index seq s items h =
      let (id, t, e, h1) = bind-ok (random_uuid env) _ s items h in
      let (r, t1, e1, h2) = bind-ok (Action.create env "meetingNoteItem" _) _ t items h1 in
      let (rs, t2, e2, h3) =
        bind-ok (create_items env user meeting_id at lines (index + 1) (seq + 1)) _ t1 items h2 in
      let made = created env "meetingNoteItem" _ t r (ap (λ x. x.0) e1) in
      let rest =
        create_items-Each meeting_id at lines (index + 1) (seq + 1) t1 rs (ap (λ x. x.0) e2) in
      let one : IsItem user meeting_id index line r =
        rw (← made) (record { owned = refl; meeting = refl; content = refl; position = refl }) in
      rw (← ok_same h3) (one, rest)

  transaction-ok :
      {A : Type 0} (m : Action A) (s : World) (a : A) → (transaction m s).0 ≡ ok a → (m s).0 ≡ ok a
  unfolding transaction
  transaction-ok {A} m s a h = go (m s) h
    where
      go : (x : Result A × World) → (settle s.db x).0 ≡ ok a → x.0 ≡ ok a
      go (ok b, t) e = e
      go (err y, t) e = cc

  -- A split that returns was of a live meeting of the caller, and returns one note item for each line of
  -- its raw notes that is not blank, with the line trimmed, in their order and numbered from 0.
  pub split_raw_notes-AreItems :
      (id : String) (replace : Bool) (s : World) (items : List Row)
      → (split_raw_notes env user id replace s).0 ≡ ok items
      → (meeting : Row) × (stored "meeting" id s.db ≡ some meeting)
        × IsFound user id false meeting
        × AreItems user id 0 (split_at "\n" (text (get "rawNotes" meeting))) items
  unfolding split_raw_notes note_lines
  split_raw_notes-AreItems id replace s items h =
      let (meeting, t, e, h1) = bind-ok (find_one env "meeting" user id false) _ s items h in
      let (existing, t1, e1, h2) = bind-ok (note_items env user id) _ t items h1 in
      let (u, t2, e2, h3) =
        bind-ok (throw_if (ltb 0 (length existing) && not replace) _) _ t1 items h2 in
      let (at, t3, e3, h4) = bind-ok (now env) _ t2 items h3 in
      let (base, t4, e4, h5) = bind-ok (allocate user _) _ t3 items h4 in
      let (seq, t5, e5, h6) =
        bind-ok (retire_items env user at existing base) _ t4 items
          (transaction-ok _ t4 items h5) in
      let (there, live) = find_one-ok env "meeting" user id false s meeting (ap (λ x. x.0) e) in
      (
        meeting,
        there,
        live,
        Each-AreItems user id 0 (split_at "\n" (text (get "rawNotes" meeting))) items
            (create_items-Each id at _ 0 seq t5 items h6),
      )

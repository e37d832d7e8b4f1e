-- ===== src/Meetings/Capture.antt =====
-- The capture of a meeting: what is done with its raw notes never changes them.
use planner_api.Common.{
  ℕ, ◌+◌, String, ◌≡◌, refl, ◌∙◌, Bool, false, Option, none, some, List, [], ◌∷◌, ◌==◌,
}
use planner_api.Store.Value.{
  Value, Row, spread, undefined, null, object, bool, int, float, big, str, date,
}
use planner_api.Store.Query.{Where}
use planner_api.Store.Db.{Exception, Result, ok, err, Order, defined}
use planner_api.Store.Effects.{rows-insert_row, rows-update_row, keeps_links-leaf}
use planner_api.Store.Links.{is_referenced}
use planner_api.Store.Action.{
  Action, World, pure, throw, throw_if, transaction, settle, ◌>>=◌, ◌>>◌, Env, now, random_uuid,
}
use planner_api.Store.Action
use planner_api.Store.Outcome.{
  Maintains, Maintains-pure, Maintains-throw, Maintains-bind, Maintains-throw_if,
}
use planner_api.Crud.{allocate, next, find_one, id_or_uuid, or_throw}
use planner_api.Meetings.{
  note_items, add_note_item, retire_items, create_items, split_raw_notes, owned_note_item,
  update_note_item, mark_processed, remove_note_item,
}

-- No row of the table has changed.
abbrev pub SameRows : String → List (String × Row) → World → Type 0
SameRows t l s = s.db.rows t ≡ l

module _ (env : Env) (t : String) (l : List (String × Row)) where
  Same-quiet :
      {A : Type 0} (m : Action A)
      → ((s : World) → (m s).1.db.rows t ≡ s.db.rows t)
      → Maintains (SameRows t l) m
  Same-quiet m k = record { at = λ s h. k s ∙ h }

  Same-now : Maintains (SameRows t l) (now env)
  unfolding now
  Same-now = record { at = λ s h. h }

  Same-random_uuid : Maintains (SameRows t l) (random_uuid env)
  unfolding random_uuid
  Same-random_uuid = record { at = λ s h. h }

  Same-find_first : (m : String) (w : Where) → Maintains (SameRows t l) (Action.find_first env m w)
  unfolding Action.find_first
  Same-find_first m w = record { at = λ s h. h }

  Same-find_many :
      (m : String) (w : Where) (le : Order) → Maintains (SameRows t l) (Action.find_many env m w le)
  unfolding Action.find_many
  Same-find_many m w le = record { at = λ s h. h }

  Same-allocate : (user : String) (n : ℕ) → Maintains (SameRows t l) (allocate user n)
  unfolding allocate
  Same-allocate user n = record { at = λ s h. h }

  Same-next : (user : String) → Maintains (SameRows t l) (next user)
  unfolding next
  Same-next user = Maintains-bind _ _ _ (Same-allocate user 1) λ b. Maintains-pure _ (b + 1)

  Same-create :
      (m : String) (columns : Row)
      → (m == t) ≡ false
      → Maintains (SameRows t l) (Action.create env m columns)
  unfolding Action.create
  Same-create m columns n = record {
    at = λ s h.
        rw (env.prisma.create_lem m columns s.db)
          (rows-insert_row m t (spread (env.prisma.defaults m) (defined columns)) s.db n ∙ h);
  }

  Same-update :
      (m id : String) (columns : Row)
      → (m == t) ≡ false
      → is_referenced m ≡ false
      → Maintains (SameRows t l) (Action.update env m id columns)
  unfolding Action.update
  Same-update m id columns n leaf = record {
    at = λ s h.
        rw (env.prisma.update_lem m id columns s.db (keeps_links-leaf m id columns leaf))
          (rows-update_row m t id columns s.db n ∙ h);
  }

  Same-or_throw : (o : Option Row) (e : Exception) → Maintains (SameRows t l) (or_throw o (throw e))
  Same-or_throw none e = Maintains-throw _ e
  Same-or_throw (some r) e = Maintains-pure _ r

  Same-find_one :
      (m user id : String) (b : Bool) → Maintains (SameRows t l) (find_one env m user id b)
  unfolding find_one
  Same-find_one m user id b = Maintains-bind _ _ _ (Same-find_first m _) λ o. Same-or_throw o _

  Same-id_or_uuid : (v : Value) → Maintains (SameRows t l) (id_or_uuid env v)
  Same-id_or_uuid undefined = Maintains-bind _ _ _ Same-random_uuid λ u. Maintains-pure _ (str u)
  Same-id_or_uuid null = Maintains-bind _ _ _ Same-random_uuid λ u. Maintains-pure _ (str u)
  Same-id_or_uuid object = Maintains-pure _ object
  Same-id_or_uuid (bool v) = Maintains-pure _ (bool v)
  Same-id_or_uuid (int v) = Maintains-pure _ (int v)
  Same-id_or_uuid (float v) = Maintains-pure _ (float v)
  Same-id_or_uuid (big v) = Maintains-pure _ (big v)
  Same-id_or_uuid (str v) = Maintains-pure _ (str v)
  Same-id_or_uuid (date v) = Maintains-pure _ (date v)

  Same-transaction :
      {A : Type 0} (m : Action A)
      → Maintains (SameRows t l) m
      → Maintains (SameRows t l) (transaction m)
  unfolding transaction
  Same-transaction {A} m k = record { at = λ s h. go s (m s) h (k.at s h) }
    where
      go :
          (s : World) (r : Result A × World)
          → SameRows t l s
          → SameRows t l r.1
          → SameRows t l (settle s.db r).1
      go s (ok a, u) h k = k
      go s (err e, u) h k = h

module _ (env : Env) (user t : String) (l : List (String × Row))
    (n : ("meetingNoteItem" == t) ≡ false) where
  Same-retire_items :
      (at : ℕ) (items : List Row) (seq : ℕ)
      → Maintains (SameRows t l) (retire_items env user at items seq)
  unfolding retire_items is_referenced
  Same-retire_items at [] seq = Maintains-pure _ seq
  Same-retire_items at (item ∷ items) seq =
      Maintains-bind _ _ _ (Same-update env t l "meetingNoteItem" _ _ n refl)
        λ r. Same-retire_items at items (seq + 1)

  Same-create_items :
      (id : String) (at : ℕ) (lines : List String) (index seq : ℕ)
      → Maintains (SameRows t l) (create_items env user id at lines index seq)
  unfolding create_items
  Same-create_items id at [] index seq = Maintains-pure _ []
  Same-create_items id at (line ∷ lines) index seq =
      Maintains-bind _ _ _ (Same-random_uuid env t l) λ u.
        Maintains-bind _ _ _ (Same-create env t l "meetingNoteItem" _ n) λ r.
          Maintains-bind _ _ _ (Same-create_items id at lines (index + 1) (seq + 1))
            λ rs. Maintains-pure _ (r ∷ rs)

  Same-split_raw_notes :
      (id : String) (replace : Bool)
      → Maintains (SameRows t l) (split_raw_notes env user id replace)
  unfolding split_raw_notes note_items
  Same-split_raw_notes id replace =
      Maintains-bind _ _ _ (Same-find_one env t l "meeting" user id false) λ meeting.
        Maintains-bind _ _ _ (Same-find_many env t l "meetingNoteItem" _ _) λ existing.
          Maintains-bind _ _ _ (Maintains-throw_if _ _ _) λ u.
            Maintains-bind _ _ _ (Same-now env t l) λ at.
              Maintains-bind _ _ _ (Same-allocate env t l user _) λ base.
                Same-transaction env t l _ (
                  Maintains-bind _ _ _ (Same-retire_items at existing base)
                    λ seq. Same-create_items id at _ 0 seq)

  Same-add_note_item :
      (id : String) (dto : Row) → Maintains (SameRows t l) (add_note_item env user id dto)
  unfolding add_note_item
  Same-add_note_item id dto =
      Maintains-bind _ _ _ (Same-find_one env t l "meeting" user id false) λ meeting.
        Maintains-bind _ _ _ (Same-now env t l) λ at.
          Maintains-bind _ _ _ (Same-id_or_uuid env t l _) λ item_id.
            Maintains-bind _ _ _ (Same-next env t l user)
              λ seq. Same-create env t l "meetingNoteItem" _ n

  -- A change of one's own note item, made of the clock and the next number.
  Same-item :
      (id : String) (columns : ℕ → ℕ → Row)
      → Maintains (SameRows t l) (do
        owned_note_item env user id
        at ← now env
        seq ← next user
        Action.update env "meetingNoteItem" id (columns at seq))
  unfolding owned_note_item is_referenced
  Same-item id columns =
      Maintains-bind _ _ _
        (Maintains-bind _ _ _ (Same-find_first env t l "meetingNoteItem" _)
          λ o. Same-or_throw env t l o _)
        λ item. Maintains-bind _ _ _ (Same-now env t l) λ at.
          Maintains-bind _ _ _ (Same-next env t l user)
            λ seq. Same-update env t l "meetingNoteItem" id _ n refl

-- Splitting the raw notes of a meeting, and adding, patching, marking and removing note items, change
-- no row of any table but the note items': the raw notes stay as they were captured.
pub note_items-SameRows :
    (env : Env) (user id t : String) (dto : Row) (replace : Bool) (s : World)
    → ("meetingNoteItem" == t) ≡ false
    → SameRows t (s.db.rows t) (split_raw_notes env user id replace s).1
      × SameRows t (s.db.rows t) (add_note_item env user id dto s).1
      × SameRows t (s.db.rows t) (update_note_item env user id dto s).1
      × SameRows t (s.db.rows t) (mark_processed env user id dto s).1
      × SameRows t (s.db.rows t) (remove_note_item env user id s).1
unfolding update_note_item mark_processed remove_note_item
note_items-SameRows env user id t dto replace s n = (
  (Same-split_raw_notes env user t (s.db.rows t) n id replace).at s refl,
  (Same-add_note_item env user t (s.db.rows t) n id dto).at s refl,
  (Same-item env user t (s.db.rows t) n id _).at s refl,
  (Same-item env user t (s.db.rows t) n id _).at s refl,
  (Same-item env user t (s.db.rows t) n id _).at s refl,
)

-- ===== src/Meetings/Scoped.antt =====
-- Whatever is done to a meeting and its note items stays with their owner.
use planner_api.Common.{
  ℕ, ◌+◌, String, Bool, Occurs-append_left, refl, false, List, [], ◌∷◌, ◌++◌, arith, inl, inr,
  Occurs, true, ◌≡◌, Bool-cases,
}
use planner_api.Store.Value.{date, big, Row, get, spread, id_of, bool, null, or_else, has, truthy}
use planner_api.Store.Query.{matches}
use planner_api.Store.Db.{KeepsId}
use planner_api.Store.Links.{is_referenced}
use planner_api.Store.Effects.{has-defined, keeps_links-append}
use planner_api.Store.Action.{Action, World, ◌>>=◌, Env}
use planner_api.Crud.Rows.{text_of_value_eq}
use planner_api.Crud.Isolation.{Isolated, KeepsOwner-has}
use planner_api.Crud.Keeps.{
  Keeps, Keeps-pure, Keeps-throw_if, Keeps-bind, Keeps-now, Keeps-next, Keeps-allocate,
  Keeps-random_uuid, Keeps-transaction, Keeps-create, Keeps-update, Keeps-update_leaf,
  Keeps-find_one,
}
use planner_api.Crud.Reads.{ids, Occurs-ids, AsksOwn, Keeps-find_many_own, Keeps-owned_item}
use planner_api.Crud.Scoped.{Keeps-id_or_uuid, Keeps-crud_create, Keeps-crud_update}
use planner_api.Recurrence.Spawn.{by_position}
use planner_api.Resources.{dated, filed}
use planner_api.Resources.Scoped.{NamesNoOwner, Keeps-assert_links}
use planner_api.Tasks.Checklist.Scoped.{sent_names_no_user}
use planner_api.Tasks.{if_sent}
use planner_api.Meetings.{
  items_where, create_meeting, update_meeting, note_items, add_note_item, retire_items,
  create_items, split_raw_notes, owned_note_item, update_note_item, mark_processed,
  remove_note_item,
}

no_id : (env : Env) (user : String) (dto : Row) → has "id" (dated env user dto) ≡ false
no_id env user dto = elim (Bool-cases (truthy (get "date" dto))) [
  | inl e ↦ rw e refl
  | inr e ↦ rw e refl
]

module _ (env : Env) (user : String) where
  pub Keeps-create_meeting : (dto : Row) → Keeps user [] (create_meeting env user dto)
  unfolding create_meeting
  Keeps-create_meeting dto =
      Keeps-bind user [] _ _ (Keeps-assert_links env user (filed env user) dto)
        λ u. Keeps-crud_create env user [] "meeting" _

  Keeps-update_meeting :
      (id : String) (dto : Row)
      → NamesNoOwner (spread dto (dated env user dto))
      → KeepsId id dto
      → Keeps user [] (update_meeting env user id dto)
  unfolding update_meeting
  Keeps-update_meeting id dto h same =
      Keeps-bind user [] _ _ (Keeps-assert_links env user (filed env user) dto) λ u.
        Keeps-crud_update env user [] "meeting" id _ h
          (keeps_links-append "meeting" id (dated env user dto) dto (no_id env user dto) same)

  pub Keeps-add_note_item :
      (meeting_id : String) (dto : Row) → Keeps user [] (add_note_item env user meeting_id dto)
  unfolding add_note_item
  Keeps-add_note_item meeting_id dto =
      Keeps-find_one user [] env "meeting" meeting_id false _ λ meeting found.
        Keeps-bind user _ _ _ (Keeps-now user _ env) λ at.
          Keeps-bind user _ _ _ (Keeps-id_or_uuid env user _ (get "id" dto)) λ id.
            Keeps-bind user _ _ _ (Keeps-next user _)
              λ seq. Keeps-create user _ env "meetingNoteItem" _ (ground arith)

  Keeps-retire_items :
      (g : List (String × String)) (at : ℕ) (items : List Row) (seq : ℕ)
      → ((r : Row) → Occurs r items → Occurs ("meetingNoteItem", id_of r) g)
      → Keeps user g (retire_items env user at items seq)
  unfolding retire_items
  Keeps-retire_items g at [] seq own = Keeps-pure user g seq
  Keeps-retire_items g at (item ∷ items) seq own =
      Keeps-bind user g _ _
        (Keeps-update user g env "meetingNoteItem" (id_of item) _ (own item (inl refl))
          (KeepsOwner-has user _ refl) refl)
        λ made. Keeps-retire_items g at items (seq + 1) (λ q o. own q (inr o))

  Keeps-create_items :
      (g : List (String × String)) (meeting_id : String) (at : ℕ) (lines : List String)
      (index seq : ℕ)
      → Keeps user g (create_items env user meeting_id at lines index seq)
  unfolding create_items
  Keeps-create_items g meeting_id at [] index seq = Keeps-pure user g []
  Keeps-create_items g meeting_id at (line ∷ lines) index seq =
      Keeps-bind user g _ _ (Keeps-random_uuid user g env) λ id.
        Keeps-bind user g _ _ (Keeps-create user g env "meetingNoteItem" _ refl) λ item.
          Keeps-bind user g _ _ (Keeps-create_items g meeting_id at lines (index + 1) (seq + 1))
            λ items. Keeps-pure user g (item ∷ items)

  items-AsksOwn : (id : String) → AsksOwn env.prisma.like user (items_where user id)
  unfolding matches
  items-AsksOwn id r h = text_of_value_eq (get "userId" r) user (ground arith)

  Keeps-split_raw_notes :
      (id : String) (replace : Bool) → Keeps user [] (split_raw_notes env user id replace)
  unfolding split_raw_notes note_items
  Keeps-split_raw_notes id replace =
      Keeps-find_one user [] env "meeting" id false _ λ meeting found.
        Keeps-find_many_own user _ env "meetingNoteItem" _ by_position _ (items-AsksOwn id)
          λ existing. Keeps-bind user _ _ _ (Keeps-throw_if user _ _ _) λ u.
            Keeps-bind user _ _ _ (Keeps-now user _ env) λ at.
              Keeps-bind user _ _ _ (Keeps-allocate user _ _) λ base. Keeps-transaction user _ _ (
                Keeps-bind user _ _ _
                  (Keeps-retire_items _ at existing base (λ r o.
                    Occurs-append_left ("meetingNoteItem", id_of r) (ids "meetingNoteItem" existing)
                      _ (Occurs-ids "meetingNoteItem" r existing o)))
                  λ seq. Keeps-create_items _ id at _ 0 seq)

  Keeps-owned_note_item :
      {B : Type 0} (id : String) (f : Row → Action B)
      → ((r : Row) → Keeps user (("meetingNoteItem", id) ∷ []) (f r))
      → Keeps user [] (owned_note_item env user id >>= f)
  unfolding owned_note_item
  Keeps-owned_note_item id f kf = Keeps-owned_item user [] env "meetingNoteItem" id _ f kf

  pub Keeps-update_note_item :
      (id : String) (dto : Row) → Keeps user [] (update_note_item env user id dto)
  unfolding update_note_item is_referenced
  Keeps-update_note_item id dto = Keeps-owned_note_item id _ λ item.
      Keeps-bind user _ _ _ (Keeps-now user _ env) λ at.
        Keeps-bind user _ _ _ (Keeps-next user _) λ seq.
          let stamps : Row = ("updatedAt", date at) ∷ ("seq", big seq) ∷ [] in
          let marked : Row =
            if_sent (get "processed" dto) (("processed", get "processed" dto) ∷ []) ++ stamps in
          let placed : Row =
            if_sent (get "position" dto) (("position", get "position" dto) ∷ []) ++ marked in
          let by_mark = sent_names_no_user "processed" (get "processed" dto) stamps refl refl in
          let by_place = sent_names_no_user "position" (get "position" dto) marked refl by_mark in
          Keeps-update_leaf user _ env "meetingNoteItem" id _ (inl refl)
            (KeepsOwner-has user _
              (sent_names_no_user "content" (get "content" dto) placed refl by_place))
            refl

  pub Keeps-mark_processed :
      (id : String) (dto : Row) → Keeps user [] (mark_processed env user id dto)
  unfolding mark_processed is_referenced
  Keeps-mark_processed id dto = Keeps-owned_note_item id _ λ item.
      Keeps-bind user _ _ _ (Keeps-now user _ env) λ at.
        Keeps-bind user _ _ _ (Keeps-next user _) λ seq.
          let columns : Row =
            ("processed", bool true)
            ∷ ("resultKind", get "resultKind" dto)
            ∷ ("resultId", or_else (get "resultId" dto) null)
            ∷ ("processedAt", date at)
            ∷ ("updatedAt", date at)
            ∷ ("seq", big seq)
            ∷ [] in
          Keeps-update_leaf user _ env "meetingNoteItem" id _ (inl refl)
            (KeepsOwner-has user _ (has-defined "userId" columns refl)) refl

  Keeps-remove_note_item : (id : String) → Keeps user [] (remove_note_item env user id)
  unfolding remove_note_item
  Keeps-remove_note_item id = Keeps-owned_note_item id _ λ item.
      Keeps-bind user _ _ _ (Keeps-now user _ env) λ at.
        Keeps-bind user _ _ _ (Keeps-next user _) λ seq.
          Keeps-update user _ env "meetingNoteItem" id _ (inl refl) (KeepsOwner-has user _ refl)
            refl

-- Whatever a caller creates, patches (with columns that name neither `userId` nor another id than
-- the meeting's), splits, adds, marks or
-- removes among meetings and their note items leaves the rows and the sequence counter of every other
-- user as they are, also when the operation throws.
pub meetings-Isolated :
    (env : Env) (user id : String) (dto : Row) (replace : Bool) (s : World)
    → NamesNoOwner (spread dto (dated env user dto))
    → KeepsId id dto
    → Isolated user s.db (create_meeting env user dto s).1.db
      × Isolated user s.db (update_meeting env user id dto s).1.db
      × Isolated user s.db (split_raw_notes env user id replace s).1.db
      × Isolated user s.db (add_note_item env user id dto s).1.db
      × Isolated user s.db (update_note_item env user id dto s).1.db
      × Isolated user s.db (mark_processed env user id dto s).1.db
      × Isolated user s.db (remove_note_item env user id s).1.db
meetings-Isolated env user id dto replace s h same = (
  (Keeps-create_meeting env user dto).at s tt,
  (Keeps-update_meeting env user id dto h same).at s tt,
  (Keeps-split_raw_notes env user id replace).at s tt,
  (Keeps-add_note_item env user id dto).at s tt,
  (Keeps-update_note_item env user id dto).at s tt,
  (Keeps-mark_processed env user id dto).at s tt,
  (Keeps-remove_note_item env user id).at s tt,
)

-- ===== src/Meetings.antt =====
-- modules/meetings/meetings.service.ts: meetings, and the note items that are made of their raw notes.
pub mod Scoped
pub mod Capture
pub mod Split
use planner_api.Common.{
  ℕ, suc, ◌+◌, ◌-◌, String, Bool, true, false, not, ◌&&◌, Option, none, some, List, [], ◌∷◌, ◌++◌,
  ◌==◌, leb, ltb, length, filter, map, if◌then◌else◌,
}
use planner_api.Common.Int.{ℤ, pos, negsuc, difference}
use planner_api.Common.Texts.{split_at, trim}
use planner_api.Store.Value.{
  Value, null, bool, int, str, date, big, Row, get, spread, id_of, or_else, text, truthy,
}
use planner_api.Store.Query.{Where, equals, is_null}
use planner_api.Store.Db.{bad_request}
use planner_api.Store.Action.{
  Action, pure, throw, throw_if, transaction, ◌>>=◌, ◌>>◌, Env, now, random_uuid,
}
use planner_api.Store.Action
use planner_api.Crud.{allocate, next, find_one, id_or_uuid, or_throw}
use planner_api.Crud
use planner_api.Recurrence.Spawn.{by_position}
use planner_api.Resources.{
  ResourceQuery, put_given, put_words, put_range, assert_links, filed, dated,
}
use planner_api.Tasks.{instant_value, if_sent}

unfoldable pub meeting_where : ResourceQuery → Where
meeting_where query =
    put_words ("title" ∷ "rawNotes" ∷ "attendees" ∷ []) query.q
      (put_range "date" query.from query.to (put_given query.equal []))

-- The lines of the raw notes that are not blank, trimmed.
unfoldable pub note_lines : String → List String
note_lines raw = filter (λ line. not (line == "")) (map trim (split_at "\n" raw))

pub record ProcessingStatus : Type 0 where
  pub captured : ℕ
  pub processed : ℕ
  pub remaining : ℤ

abbrev pub items_where : String → String → Where
items_where user meeting_id =
    ("userId", equals (str user))
    ∷ ("meetingId", equals (str meeting_id))
    ∷ ("deletedAt", is_null)
    ∷ []

module _ (env : Env) (user : String) where
  unfoldable pub create_meeting : Row → Action Row
  create_meeting dto = do
    assert_links env user (filed env user) dto
    Crud.create env "meeting" user (
        spread dto (
          ("date", instant_value (env.new_date (get "date" dto)))
          ∷ ("rawNotes", or_else (get "rawNotes" dto) (str ""))
          ∷ []))

  unfoldable pub update_meeting : String → Row → Action Row
  update_meeting id dto = do
    assert_links env user (filed env user) dto
    Crud.update env "meeting" user id (spread dto (dated env user dto))

  unfoldable pub processing_status : String → Action ProcessingStatus
  processing_status meeting_id = do
    find_one env "meeting" user meeting_id false
    captured ← Action.count env "meetingNoteItem" (items_where user meeting_id)
    processed ←
        Action.count env "meetingNoteItem"
          (items_where user meeting_id ++ (("processed", equals (bool true)) ∷ []))
    pure (record {
      captured = captured;
      processed = processed;
      remaining = difference captured processed;
    })

  unfoldable pub note_items : String → Action (List Row)
  note_items meeting_id =
      Action.find_many env "meetingNoteItem" (items_where user meeting_id) by_position

  -- The columns of a note item, of the service's own making.
  abbrev pub item_columns : Value → String → Value → Value → ℕ → ℕ → Row
  item_columns id meeting_id content position at seq =
      ("id", id)
      ∷ ("userId", str user)
      ∷ ("meetingId", str meeting_id)
      ∷ ("content", content)
      ∷ ("position", position)
      ∷ ("createdAt", date at)
      ∷ ("updatedAt", date at)
      ∷ ("seq", big seq)
      ∷ []

  unfoldable pub add_note_item : String → Row → Action Row
  add_note_item meeting_id dto = do
    find_one env "meeting" user meeting_id false
    at ← now env
    id ← id_or_uuid env (get "id" dto)
    seq ← next user
    Action.create env "meetingNoteItem" (
        item_columns id meeting_id (get "content" dto) (or_else (get "position" dto) (int (pos 0)))
          at seq)

  -- The first loop of `splitRawNotes`: the items go, each with the next number.
  unfoldable pub retire_items : ℕ → List Row → ℕ → Action ℕ
  retire_items at [] seq = pure seq
  retire_items at (item ∷ items) seq = do
    Action.update env "meetingNoteItem" (id_of item)
        (("deletedAt", date at) ∷ ("updatedAt", date at) ∷ ("seq", big (seq + 1)) ∷ [])
    retire_items at items (seq + 1)

  -- The second loop: an item for each line, from `index` on.
  unfoldable pub create_items : String → ℕ → List String → ℕ → ℕ → Action (List Row)
  create_items meeting_id at [] index seq = pure []
  create_items meeting_id at (line ∷ lines) index seq = do
    id ← random_uuid env
    item ←
        Action.create env "meetingNoteItem"
          (item_columns (str id) meeting_id (str line) (int (pos index)) at (seq + 1))
    items ← create_items meeting_id at lines (index + 1) (seq + 1)
    pure (item ∷ items)

  unfoldable pub split_raw_notes : String → Bool → Action (List Row)
  unfolding note_items note_lines retire_items create_items
  split_raw_notes meeting_id replace = do
    meeting ← find_one env "meeting" user meeting_id false
    existing ← note_items meeting_id
    throw_if (ltb 0 (length existing) && not replace) (bad_request "Meeting already has note items")
    let lines = note_lines (text (get "rawNotes" meeting))
    at ← now env
    base ← allocate user (length existing + length lines)
    transaction (do seq ← retire_items at existing base; create_items meeting_id at lines 0 seq)

  unfoldable pub owned_note_item : String → Action Row
  owned_note_item id = do
    item ←
        Action.find_first env "meetingNoteItem"
          (("id", equals (str id)) ∷ ("userId", equals (str user)) ∷ ("deletedAt", is_null) ∷ [])
    or_throw item (throw (bad_request "Note item not found"))

  unfoldable pub update_note_item : String → Row → Action Row
  unfolding owned_note_item
  update_note_item id dto = do
    owned_note_item id
    at ← now env
    seq ← next user
    Action.update env "meetingNoteItem" id (
        if_sent (get "content" dto) (("content", get "content" dto) ∷ [])
        ++ (if_sent (get "position" dto) (("position", get "position" dto) ∷ [])
            ++ (if_sent (get "processed" dto) (("processed", get "processed" dto) ∷ [])
                ++ (("updatedAt", date at) ∷ ("seq", big seq) ∷ []))))

  unfoldable pub mark_processed : String → Row → Action Row
  unfolding owned_note_item
  mark_processed id dto = do
    owned_note_item id
    at ← now env
    seq ← next user
    Action.update env "meetingNoteItem" id (
        ("processed", bool true)
        ∷ ("resultKind", get "resultKind" dto)
        ∷ ("resultId", or_else (get "resultId" dto) null)
        ∷ ("processedAt", date at)
        ∷ ("updatedAt", date at)
        ∷ ("seq", big seq)
        ∷ [])

  unfoldable pub remove_note_item : String → Action Row
  unfolding owned_note_item
  remove_note_item id = do
    owned_note_item id
    at ← now env
    seq ← next user
    Action.update env "meetingNoteItem" id
        (("deletedAt", date at) ∷ ("updatedAt", date at) ∷ ("seq", big seq) ∷ [])

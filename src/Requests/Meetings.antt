-- ===== src/Requests/Meetings.antt =====
-- modules/meetings/meetings.controller.ts: the routes of meetings and of their note items.
use planner_api.Common.{String, false}
use planner_api.Store.Value.{Row, get, truthy}
use planner_api.Store.Db.{Order}
use planner_api.Store.Action.{Action, pure, ◌>>=◌, ◌>>◌, Env}
use planner_api.Crud.{find_one}
use planner_api.Crud
use planner_api.Resources.{ResourceQuery}
use planner_api.Meetings.{
  meeting_where, create_meeting, update_meeting, processing_status, add_note_item, split_raw_notes,
  update_note_item, remove_note_item,
}
use planner_api.Meetings
use planner_api.Requests.Dtos.Meetings.{
  create_meeting_dto, update_meeting_dto, create_note_item_dto, update_note_item_dto,
  mark_processed_dto, split_notes_dto,
}
use planner_api.Requests.Answer.{Answer, row, rows, page, standing}
use planner_api.Requests.Validation.{Pipe, validated, uuid_param}

-- A request to the controller; the query of a list is the validated one.
pub data MeetingRoute : Type 0 where
  list : ResourceQuery → MeetingRoute
  create : Row → MeetingRoute
  one remove status note_items remove_item : String → MeetingRoute
  update add_item split update_item mark_processed : String → Row → MeetingRoute

module _ (env : Env) (pipe : Pipe) (le : Order) (user : String) where
  -- The handlers of MeetingsController, with the parameters' pipes in front; `le` is the order that
  -- the query asks the database for.
  unfoldable pub handle_meeting : MeetingRoute → Action Answer
  handle_meeting (list query) = do
    found ← Crud.list env "meeting" user query.options (meeting_where query) le
    pure (page found)
  handle_meeting (create body) = do
    dto ← validated pipe create_meeting_dto body
    made ← create_meeting env user dto
    pure (row made)
  handle_meeting (one id) = do
    uuid_param pipe id
    found ← find_one env "meeting" user id false
    pure (row found)
  handle_meeting (update id body) = do
    uuid_param pipe id
    dto ← validated pipe update_meeting_dto body
    changed ← update_meeting env user id dto
    pure (row changed)
  handle_meeting (remove id) = do
    uuid_param pipe id
    gone ← Crud.remove env "meeting" user id
    pure (row gone)
  handle_meeting (status id) = do
    uuid_param pipe id
    found ← processing_status env user id
    pure (standing found)
  handle_meeting (note_items id) = do
    uuid_param pipe id
    items ← Meetings.note_items env user id
    pure (rows items)
  handle_meeting (add_item id body) = do
    uuid_param pipe id
    dto ← validated pipe create_note_item_dto body
    item ← add_note_item env user id dto
    pure (row item)
  handle_meeting (split id body) = do
    uuid_param pipe id
    dto ← validated pipe split_notes_dto body
    items ← split_raw_notes env user id (truthy (get "replace" dto))
    pure (rows items)
  handle_meeting (update_item id body) = do
    uuid_param pipe id
    dto ← validated pipe update_note_item_dto body
    item ← update_note_item env user id dto
    pure (row item)
  handle_meeting (mark_processed id body) = do
    uuid_param pipe id
    dto ← validated pipe mark_processed_dto body
    item ← Meetings.mark_processed env user id dto
    pure (row item)
  handle_meeting (remove_item id) = do
    uuid_param pipe id
    item ← remove_note_item env user id
    pure (row item)

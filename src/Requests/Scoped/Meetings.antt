-- ===== src/Requests/Scoped/Meetings.antt =====
-- The routes of meetings and of their note items.
use planner_api.Common.{String, ◌≡◌, refl, false, []}
use planner_api.Store.Value.{Row, get, has, truthy, spread}
use planner_api.Store.Db.{Order, defined, KeepsId, ok}
use planner_api.Store.Action.{Env}
use planner_api.Crud
use planner_api.Crud.{find_one}
use planner_api.Crud.Keeps.{Keeps, keeps_rules, Keeps-find_many, Keeps-find_one_read}
use planner_api.Crud.Scoped.{Keeps-crud_remove}
use planner_api.Resources.{ResourceQuery, dated}
use planner_api.Recurrence.Spawn.{by_position}
use planner_api.Meetings.{meeting_where, processing_status}
use planner_api.Meetings
use planner_api.Meetings.Scoped.{
  meetings-Isolated, Keeps-create_meeting, Keeps-add_note_item, Keeps-update_note_item,
  Keeps-mark_processed,
}
use planner_api.Requests.Dtos.Meetings.{update_meeting_dto}
use planner_api.Requests.Dto.{fields}
use planner_api.Requests.Answer.{row, rows, page, standing}
use planner_api.Requests.Validation.{Pipe, Validates}
use planner_api.Requests.Meetings.{
  MeetingRoute, list, create, one, remove, status, note_items, remove_item, update, add_item, split,
  update_item, mark_processed, handle_meeting,
}
use planner_api.Requests.Scoped.{
  Keeps-uuid_param, Keeps-validated, Keeps-answer, Keeps-at, has-dated,
}

module _ (pipe : Pipe) where
  -- Where a meeting is patched, what the pipe makes of the body names no other id.
  abbrev pub KeepsMeetingId : MeetingRoute → Type 0
  KeepsMeetingId (update id body) =
      (dto : Row) → pipe.transform update_meeting_dto body ≡ ok dto → KeepsId id dto
  KeepsMeetingId _ = Unit

module _ (env : Env) (pipe : Pipe) (le : Order) (user : String) (law : Validates pipe) where
  Keeps-list :
      (query : ResourceQuery)
      → Keeps user [] (Crud.list env "meeting" user query.options (meeting_where query) le)
  unfolding Crud.list
  Keeps-list query = search keeps_rules depth 9

  Keeps-status : (id : String) → Keeps user [] (processing_status env user id)
  unfolding processing_status
  Keeps-status id = search keeps_rules depth 9

  Keeps-note_items : (id : String) → Keeps user [] (Meetings.note_items env user id)
  unfolding Meetings.note_items
  Keeps-note_items id = Keeps-find_many user [] env "meetingNoteItem" _ by_position

  free :
      (dto : Row)
      → has "userId" dto ≡ false
      → has "userId" (defined (spread dto (dated env user dto))) ≡ false
  free = has-dated env user

  none_named : has "userId" (defined (spread [] (dated env user []))) ≡ false
  none_named = refl

  -- Every route of MeetingsController leaves the rows and the counter of everybody else as they are.
  pub Keeps-handle_meeting :
      (route : MeetingRoute)
      → KeepsMeetingId pipe route
      → Keeps user [] (handle_meeting env pipe le user route)
  unfolding handle_meeting fields
  Keeps-handle_meeting (list query) same =
      Keeps-answer pipe user _ page λ s. (Keeps-list query).at s tt
  Keeps-handle_meeting (create body) same =
      Keeps-validated pipe user _ body _
        λ dto e. Keeps-answer pipe user _ row λ s. (Keeps-create_meeting env user dto).at s tt
  Keeps-handle_meeting (one id) same =
      Keeps-at pipe user id _ row λ s. (Keeps-find_one_read user [] env "meeting" id false).at s tt
  Keeps-handle_meeting (update id body) same = Keeps-uuid_param pipe user id _ (
      Keeps-validated pipe user update_meeting_dto body _ λ dto e. Keeps-answer pipe user _ row λ s.
        (meetings-Isolated env user id dto false s
          (free dto (law.whitelisted update_meeting_dto body dto e "userId" refl)) (same dto e)).1)
  Keeps-handle_meeting (remove id) same =
      Keeps-at pipe user id _ row λ s. (Keeps-crud_remove env user [] "meeting" id).at s tt
  Keeps-handle_meeting (status id) same =
      Keeps-at pipe user id _ standing λ s. (Keeps-status id).at s tt
  Keeps-handle_meeting (note_items id) same =
      Keeps-at pipe user id _ rows λ s. (Keeps-note_items id).at s tt
  Keeps-handle_meeting (add_item id body) same = Keeps-uuid_param pipe user id _ (
      Keeps-validated pipe user _ body _
        λ dto e. Keeps-answer pipe user _ row λ s. (Keeps-add_note_item env user id dto).at s tt)
  Keeps-handle_meeting (split id body) same = Keeps-uuid_param pipe user id _ (
      Keeps-validated pipe user _ body _ λ dto e.
        Keeps-answer pipe user _ rows
          λ s. (meetings-Isolated env user id [] (truthy (get "replace" dto)) s none_named refl).2)
  Keeps-handle_meeting (update_item id body) same = Keeps-uuid_param pipe user id _ (
      Keeps-validated pipe user _ body _
        λ dto e. Keeps-answer pipe user _ row λ s. (Keeps-update_note_item env user id dto).at s tt)
  Keeps-handle_meeting (mark_processed id body) same = Keeps-uuid_param pipe user id _ (
      Keeps-validated pipe user _ body _
        λ dto e. Keeps-answer pipe user _ row λ s. (Keeps-mark_processed env user id dto).at s tt)
  Keeps-handle_meeting (remove_item id) same =
      Keeps-at pipe user id _ row λ s. (meetings-Isolated env user id [] false s none_named refl).6

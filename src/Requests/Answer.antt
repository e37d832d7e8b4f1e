-- ===== src/Requests/Answer.antt =====
-- What the handlers of the controllers return.
use planner_api.Common.{Option, List}
use planner_api.Store.Value.{Row}
use planner_api.Crud.{Paginated}
use planner_api.Meetings.{ProcessingStatus}

pub data Answer : Type 0 where
  row : Row → Answer
  rows : List Row → Answer
  page : Paginated → Answer
  completion : Row → Option Row → Answer
  standing : ProcessingStatus → Answer

-- ===== src/Requests/Serve.antt =====
-- A request from end to end: common/guards/firebase-auth.guard.ts, the pipes and the handler of the
-- route as the caller that common/decorators/current-user.decorator.ts reads from the request, and
-- common/filters/all-exceptions.filter.ts for what was thrown.
pub mod Owners
use planner_api.Common.{String, Bool, true, false, Option, none, some}
use planner_api.Store.Db.{Result, ok, err, Order, failure}
use planner_api.Store.Action.{Action, World, throw, ◌>>=◌, Env}
use planner_api.Recurrence.Spawn.{Zone}
use planner_api.Users.{AuthenticatedUser}
use planner_api.Users.Guard.{Firebase, can_activate}
use planner_api.Errors.{Reply, reply}
use planner_api.Requests.Answer.{Answer}
use planner_api.Requests.Validation.{Pipe}
use planner_api.Requests.Tasks.{TaskRoute, handle_task}
use planner_api.Requests.Meetings.{MeetingRoute, handle_meeting}

pub data Request : Type 0 where
  task : TaskRoute → Request
  meeting : MeetingRoute → Request

-- What is sent back.
pub data Response : Type 0 where
  success : Answer → Response
  failed : Reply → Response

unfoldable pub respond : Result Answer → Response
unfolding reply
respond (ok answer) = success answer
respond (err e) = failed (reply e)

module _ (env : Env) (zone : Zone) (firebase : Firebase) (pipe : Pipe) (le : Order) where
  unfoldable pub handle : Request → String → Action Answer
  unfolding handle_task handle_meeting
  handle (task route) user = handle_task env zone pipe le user route
  handle (meeting route) user = handle_meeting env pipe le user route

  -- `@UserId()`: `request.plannerUser!.id`
  abbrev pub as_caller : Request → Option AuthenticatedUser → Action Answer
  as_caller request none = throw (failure "Cannot read properties of undefined")
  as_caller request (some user) = handle request user.id

  unfoldable pub serve : Option String → Request → Action Answer
  unfolding can_activate handle
  serve authorization request = do
    user ← can_activate env firebase false authorization
    as_caller request user

-- ===== src/Requests/Serve/Owners.antt =====
-- Whose data a request touches, and what a request without a verified token comes to.
use planner_api.Common.{[], String, ◌≡◌, refl, false, Option, none, some}
use planner_api.Store.Db.{Result, ok, err, Order}
use planner_api.Store.Action.{Action, World, ◌>>=◌, continue, Env}
use planner_api.Recurrence.Spawn.{Zone}
use planner_api.Crud.Isolation.{Isolated}
use planner_api.Crud.Keeps.{Keeps}
use planner_api.Users.{AuthenticatedUser}
use planner_api.Users.Identity.{CacheIsRight}
use planner_api.Users.Guard.{Firebase, can_activate}
use planner_api.Users.Guard.Passing.{Passes, can_activate-Passes}
use planner_api.Requests.Answer.{Answer}
use planner_api.Requests.Validation.{Pipe, Validates}
use planner_api.Requests.Scoped.Tasks.{KeepsTaskId, Keeps-handle_task}
use planner_api.Requests.Scoped.Meetings.{KeepsMeetingId, Keeps-handle_meeting}
use planner_api.Requests.Serve.{Request, task, meeting, handle, serve, as_caller}

-- The patch of a task or a meeting, as the pipe hands it on, names no id but its route's.
abbrev pub KeepsRowId : Pipe → Request → Type 0
KeepsRowId pipe (task route) = KeepsTaskId pipe route
KeepsRowId pipe (meeting route) = KeepsMeetingId pipe route

module _ (env : Env) (zone : Zone) (firebase : Firebase) (pipe : Pipe) (le : Order) where
  Keeps-handle :
      (user : String) (request : Request)
      → Validates pipe
      → KeepsRowId pipe request
      → Keeps user [] (handle env zone firebase pipe le request user)
  unfolding handle
  Keeps-handle user (task route) law same = Keeps-handle_task env zone pipe le user law route same
  Keeps-handle user (meeting route) law same = Keeps-handle_meeting env pipe le user law route same

  -- The guard refused the request and it ended there; or it passed with a verified token, as a
  -- principal of that token's claims, and what the handler did stays with that principal.
  abbrev pub IsServed :
      Option String
      → World
      → Result (Option AuthenticatedUser) × World
      → Result Answer × World
      → Type 0
  IsServed authorization s (err e, t) r = r ≡ (err e, t)
  IsServed authorization s (ok x, t) r =
      (p : AuthenticatedUser) × (x ≡ some p)
      × Passes env firebase authorization s t x
      × Isolated p.id t.db r.1.db

  -- A request to the tasks or the meetings, whatever route, parameters and body: either the guard
  -- refused it and nothing of the handler ran; or its header held a token that Firebase verified, the
  -- caller is the principal of that token's claims, and the handler left the rows and the counter of
  -- every other user as they were, also when it threw. While the cache of principals is right, if the
  -- pipe drops the fields that a request class does not declare, and if the patch of a task or a
  -- meeting, as the pipe hands it on, names no id but its route's.
  pub serve-IsServed :
      (authorization : Option String) (request : Request) (s : World)
      → Validates pipe
      → KeepsRowId pipe request
      → CacheIsRight s
      → IsServed authorization s
          (can_activate env firebase false authorization s)
          (serve env zone firebase pipe le authorization request s)
  unfolding serve ◌>>=◌
  serve-IsServed authorization request s law same right =
      go (can_activate env firebase false authorization s)
        (λ x e. can_activate-Passes env firebase authorization s x right e)
    where
      as_principal :
          (x : Option AuthenticatedUser) (t : World)
          → Passes env firebase authorization s t x
          → (p : AuthenticatedUser) × (x ≡ some p)
            × Passes env firebase authorization s t x
            × Isolated p.id t.db (as_caller env zone firebase pipe le request x t).1.db
      as_principal none t passes = let user_there = passes.principal in cc
      as_principal (some p) t passes =
          (p, refl, passes, (Keeps-handle p.id request law same).at t tt)

      go :
          (r : Result (Option AuthenticatedUser) × World)
          → ((x : Option AuthenticatedUser)
              → r.0 ≡ ok x
              → Passes env firebase authorization s r.1 x)
          → IsServed authorization s r (continue r (as_caller env zone firebase pipe le request))
      go (err e, t) k = refl
      go (ok x, t) k = as_principal x t (k x refl)

  -- No token that Firebase verifies in the header.
  abbrev pub LacksToken : Option String → World → Type 0
  LacksToken none s = Unit
  LacksToken (some token) s = firebase.verify_id_token s.calls token ≡ none

-- ===== src/Activity/Scoped.antt =====
-- Whatever is logged stays with its owner.
use planner_api.Common.{String, refl, []}
use planner_api.Store.Links.{is_referenced}
use planner_api.Store.Value.{date, Row, get, spread, truthy}
use planner_api.Store.Action.{World, Env}
use planner_api.Crud.Isolation.{Isolated}
use planner_api.Crud.Keeps.{Keeps, Keeps-pure, Keeps-bind, Keeps-if, Keeps-now}
use planner_api.Crud.Scoped.{Keeps-crud_create, Keeps-crud_update_leaf}
use planner_api.Resources.Scoped.{NamesNoOwner, Keeps-assert_links}
use planner_api.Activity.{activity_links, log_activity, with_occurrence, update_activity}

Keeps-log_activity :
    (env : Env) (user : String) (dto : Row) → Keeps user [] (log_activity env user dto)
unfolding log_activity
Keeps-log_activity env user dto =
    Keeps-bind user [] _ _ (Keeps-assert_links env user (activity_links env user) dto) λ u.
      Keeps-bind user [] _ _
        (Keeps-if user [] (truthy (get "occurredAt" dto)) _ _ (Keeps-pure user [] _)
          (Keeps-bind user [] _ _ (Keeps-now user [] env) λ t. Keeps-pure user [] (date t)))
        λ at. Keeps-crud_create env user [] "activityEntry" _

-- Whatever a caller logs or patches (with columns that do not name `userId`) leaves the rows and the
-- sequence counter of every other user as they are, also when the operation throws.
pub activity-Isolated :
    (env : Env) (user id : String) (dto : Row) (s : World)
    → NamesNoOwner (spread dto (with_occurrence env user dto))
    → Isolated user s.db (log_activity env user dto s).1.db
      × Isolated user s.db (update_activity env user id dto s).1.db
unfolding update_activity is_referenced
activity-Isolated env user id dto s h = (
  (Keeps-log_activity env user dto).at s tt,
  (Keeps-crud_update_leaf env user [] "activityEntry" id _ h refl).at s tt,
)

-- ===== src/Resources/Scoped.antt =====
-- Whatever is done to an organization, project, decision, requirement or note stays with its owner.
use planner_api.Common.{String, ◌≡◌, refl, false, List, [], ◌∷◌}
use planner_api.Store.Value.{date, Row, get, has, spread, truthy}
use planner_api.Store.Db.{defined, KeepsId}
use planner_api.Store.Links.{is_referenced}
use planner_api.Store.Effects.{keeps_links-same}
use planner_api.Store.Action.{Action, World, ◌>>◌, Env}
use planner_api.Crud.Isolation.{Isolated}
use planner_api.Crud.Keeps.{Keeps, Keeps-pure, Keeps-bind, Keeps-if, Keeps-now}
use planner_api.Crud.Scoped.{
  Keeps-assert_owned_or_null, Keeps-crud_create, Keeps-crud_update, Keeps-crud_update_leaf,
}
use planner_api.Resources.{
  assert_links, filed, sourced, note_links, create_organization, update_organization,
  create_project, update_project, create_decision, dated, update_decision, create_requirement,
  update_requirement, create_note, update_note, archive, unarchive,
}

-- The columns do not name the owner.
abbrev pub NamesNoOwner : Row → Type 0
NamesNoOwner columns = has "userId" (defined columns) ≡ false

module _ (env : Env) (user : String) where
  pub Keeps-assert_links :
      (l : List (String × String)) (dto : Row) → Keeps user [] (assert_links env user l dto)
  unfolding assert_links
  Keeps-assert_links [] dto = Keeps-pure user [] tt
  Keeps-assert_links ((model, column) ∷ l) dto =
      Keeps-bind user [] _ _ (Keeps-assert_owned_or_null env user [] model (get column dto))
        λ u. Keeps-assert_links l dto

  Keeps-create_decision : (dto : Row) → Keeps user [] (create_decision env user dto)
  unfolding create_decision
  Keeps-create_decision dto =
      Keeps-bind user [] _ _ (Keeps-assert_links (sourced env user) dto) λ u.
        Keeps-bind user [] _ _
          (Keeps-if user [] (truthy (get "date" dto)) _ _ (Keeps-pure user [] _)
            (Keeps-bind user [] _ _ (Keeps-now user [] env) λ t. Keeps-pure user [] (date t)))
          λ day. Keeps-crud_create env user [] "decision" _

  Keeps-create_project : (dto : Row) → Keeps user [] (create_project env user dto)
  unfolding create_project
  Keeps-create_project dto =
      Keeps-bind user [] _ _ (Keeps-assert_owned_or_null env user [] _ _)
        λ u. Keeps-crud_create env user [] "project" _

  Keeps-linked :
      (l : List (String × String)) (dto : Row) (m : Action Row)
      → Keeps user [] m
      → Keeps user [] (assert_links env user l dto >> m)
  Keeps-linked l dto m k = Keeps-bind user [] _ _ (Keeps-assert_links l dto) λ u. k

  Keeps-update_project :
      (id : String) (dto : Row)
      → NamesNoOwner dto
      → KeepsId id dto
      → Keeps user [] (update_project env user id dto)
  unfolding update_project
  Keeps-update_project id dto h same =
      Keeps-bind user [] _ _ (Keeps-assert_owned_or_null env user [] _ _) λ u.
        Keeps-crud_update env user [] "project" id dto h (keeps_links-same "project" id dto same)

  Keeps-archive : (id : String) → Keeps user [] (archive env user id)
  unfolding archive
  Keeps-archive id =
      Keeps-bind user [] _ _ (Keeps-now user [] env)
        λ t. Keeps-crud_update env user [] "note" id _ refl refl

-- Whatever a caller creates, patches (with columns that name neither `userId` nor another id than
-- the row's) or archives among the
-- organizations, projects, decisions, requirements and notes leaves the rows and the sequence
-- counter of every other user as they are, also when the operation throws.
pub resources-Isolated :
    (env : Env) (user id : String) (dto : Row) (s : World)
    → NamesNoOwner dto
    → NamesNoOwner (spread dto (dated env user dto))
    → KeepsId id dto
    → Isolated user s.db (create_organization env user dto s).1.db
      × Isolated user s.db (update_organization env user id dto s).1.db
      × Isolated user s.db (create_project env user dto s).1.db
      × Isolated user s.db (update_project env user id dto s).1.db
      × Isolated user s.db (create_decision env user dto s).1.db
      × Isolated user s.db (update_decision env user id dto s).1.db
      × Isolated user s.db (create_requirement env user dto s).1.db
      × Isolated user s.db (update_requirement env user id dto s).1.db
      × Isolated user s.db (create_note env user dto s).1.db
      × Isolated user s.db (update_note env user id dto s).1.db
      × Isolated user s.db (archive env user id s).1.db
      × Isolated user s.db (unarchive env user id s).1.db
unfolding is_referenced create_organization update_organization update_decision create_requirement
    update_requirement create_note update_note unarchive
resources-Isolated env user id dto s h k same = (
  (Keeps-crud_create env user [] "organization" _).at s tt,
  (Keeps-crud_update env user [] "organization" id dto h
        (keeps_links-same "organization" id dto same)).at
      s tt,
  (Keeps-create_project env user dto).at s tt,
  (Keeps-update_project env user id dto h same).at s tt,
  (Keeps-create_decision env user dto).at s tt,
  (Keeps-crud_update_leaf env user [] "decision" id _ k refl).at s tt,
  (Keeps-linked env user (sourced env user) dto _
        (Keeps-crud_create env user [] "requirement" _)).at
      s tt,
  (Keeps-linked env user (filed env user) dto _ (
        Keeps-crud_update env user [] "requirement" id dto h
          (keeps_links-same "requirement" id dto same))).at
      s tt,
  (Keeps-linked env user (note_links env user) dto _ (Keeps-crud_create env user [] "note" dto)).at
      s tt,
  (Keeps-linked env user (note_links env user) dto _
        (Keeps-crud_update env user [] "note" id dto h (keeps_links-same "note" id dto same))).at
      s tt,
  (Keeps-archive env user id).at s tt,
  (Keeps-crud_update env user [] "note" id _ refl refl).at s tt,
)

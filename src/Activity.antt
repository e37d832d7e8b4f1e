-- ===== src/Activity.antt =====
-- modules/activity/activity.service.ts: the log of work, and the weekly review.
pub mod Review
pub mod Scoped
use planner_api.Common.{
  ℕ, ◌+◌, ◌-◌, ◌*◌, String, Bool, true, false, not, Option, none, some, List, [], ◌∷◌, map, ◌==◌,
  length, filter, if◌then◌else◌, leb,
}
use planner_api.Store.Value.{
  Value, null, str, date, Row, get, spread, or_else, text, instant, truthy,
}
use planner_api.Store.Query.{Where, put, equals, is_null, between, contains}
use planner_api.Store.Db.{Order}
use planner_api.Store.Action.{Action, pure, ◌>>=◌, ◌>>◌, Env, now}
use planner_api.Store.Action
use planner_api.Crud
use planner_api.Resources.{ResourceQuery, put_given, put_range, assert_links, date_or_now}
use planner_api.Tasks.{date_or_null}

abbrev put_contains : String → Option String → Where → Where
put_contains column none w = w
put_contains column (some q) w = put column (contains q) w

unfoldable pub activity_where : ResourceQuery → Where
activity_where query =
    put_contains "description" query.q
      (put_range "occurredAt" query.from query.to (put_given query.equal []))

abbrev pub is_manual : Row → Bool
is_manual entry = text (get "source" entry) == "manual"

-- `map.set(key, (map.get(key) ?? 0) + 1)`
abbrev pub count_one : String → List (String × ℕ) → List (String × ℕ)
count_one key [] = (key, 1) ∷ []
count_one key ((k, n) ∷ counts) =
    let rest = count_one key counts in if k == key then (k, n + 1) ∷ counts else (k, n) ∷ rest

abbrev pub filed_under : Row → String
filed_under entry = text (or_else (get "organizationId" entry) (str "unfiled"))

abbrev pub count_onto : List (String × ℕ) → List Row → List (String × ℕ)
count_onto counts [] = counts
count_onto counts (entry ∷ entries) = count_onto (count_one (filed_under entry) counts) entries

-- One item of `byOrganization`.
abbrev pub organization_count : String × ℕ → Value × ℕ
organization_count c = ((if c.0 == "unfiled" then null else str c.0), c.1)

pub record WeeklyReview : Type 0 where
  pub from : ℕ
  pub to : ℕ
  pub all_entries : ℕ
  pub planned_entries : ℕ
  pub unplanned_entries : ℕ
  pub carried_forward : ℕ
  pub by_organization : List (Value × ℕ)
  pub planned : List Row
  pub unplanned : List Row

abbrev pub latest_first : Order
latest_first a b = leb (instant (get "occurredAt" b)) (instant (get "occurredAt" a))

-- `date ?? new Date()`
abbrev time_or_now : Env → Option ℕ → Action ℕ
time_or_now env none = now env
time_or_now env (some t) = pure t

-- `new Date(end - 7 days)`; no date of the database is before 1970.
abbrev pub week_before : ℕ → Option ℕ → ℕ
week_before end none = end - 7 * 24 * 60 * 60 * 1000
week_before end (some start) = start

abbrev pub entries_where : String → ℕ → ℕ → Where
entries_where user start end =
    ("userId", equals (str user)) ∷ ("deletedAt", is_null) ∷ ("occurredAt", between start end) ∷ []

-- The review of the entries that were found.
unfoldable pub review_of : ℕ → ℕ → List Row → ℕ → WeeklyReview
review_of start end entries carried =
    let planned = filter (λ e. not (is_manual e)) entries in
    let unplanned = filter is_manual entries in
    record {
      from = start;
      to = end;
      all_entries = length entries;
      planned_entries = length planned;
      unplanned_entries = length unplanned;
      carried_forward = carried;
      by_organization = map organization_count (count_onto [] entries);
      planned = planned;
      unplanned = unplanned;
    }

module _ (env : Env) (user : String) where
  abbrev pub activity_links : List (String × String)
  activity_links =
      ("organization", "organizationId")
      ∷ ("project", "projectId")
      ∷ ("task", "taskId")
      ∷ ("meeting", "meetingId")
      ∷ []

  unfoldable pub log_activity : Row → Action Row
  log_activity dto = do
    assert_links env user activity_links dto
    at ← date_or_now env user (get "occurredAt" dto)
    Crud.create env "activityEntry" user (
        spread dto
          (("source", or_else (get "source" dto) (str "manual")) ∷ ("occurredAt", at) ∷ []))

  abbrev pub with_occurrence : Row → Row
  with_occurrence dto =
      if truthy (get "occurredAt" dto)
      then ("occurredAt", date_or_null env (get "occurredAt" dto)) ∷ []
      else []

  unfoldable pub update_activity : String → Row → Action Row
  update_activity id dto =
      Crud.update env "activityEntry" user id (spread dto (with_occurrence dto))

  unfoldable pub review : Option ℕ → Option ℕ → Action WeeklyReview
  unfolding review_of
  review from to = do
    end ← time_or_now env to
    let start = week_before end from
    entries ← Action.find_many env "activityEntry" (entries_where user start end) latest_first
    carried ← Action.count env "task" (
        ("userId", equals (str user))
        ∷ ("deletedAt", is_null)
        ∷ ("carriedForwardAt", between start end)
        ∷ [])
    pure (review_of start end entries carried)

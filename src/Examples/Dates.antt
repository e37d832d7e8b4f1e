-- ===== src/Examples/Dates.antt =====
-- Recurrences, tasks and the other resources at concrete inputs.
use planner_api.Common.{ℕ, ◌≤◌, ◌≡◌, refl, none, some}
use planner_api.Common.Int.{pos, negsuc}
use planner_api.Crud.Isolation.{Isolated}
use planner_api.Recurrence.Calendar.{
  Date, add_days, next_day, prev_day, sub_days, at_minute, make_date, date_on, days_in_month,
  dart_weekday, day_number,
}
use planner_api.Recurrence.{
  RecurrenceSpec, yearly, next_yearly, reminder_for, monthly, selected_weekdays, next_after,
  next_of, next_monthly, add_months, next_selected_weekday, first_weekday,
}
use planner_api.Recurrence.Chosen.{IsFirst, next_selected_weekday-IsFirst}
use planner_api.Recurrence.Spawn.{Zone}
use planner_api.Tasks.{
  create_task, update_task, complete, reopen, drop_task, carry_forward, remove_task,
}
use planner_api.Tasks.Scoped.{tasks-Isolated}
use planner_api.Tasks.Checklist.{add_checklist_item, update_checklist_item, remove_checklist_item}
use planner_api.Tasks.Checklist.Scoped.{checklist-Isolated}
use planner_api.Activity.{log_activity, update_activity}
use planner_api.Activity.Scoped.{activity-Isolated}
use planner_api.Resources.{
  create_organization, update_organization, create_project, update_project, create_decision,
  update_decision, create_requirement, update_requirement, create_note, update_note, archive,
  unarchive,
}
use planner_api.Resources.Scoped.{resources-Isolated}
use planner_api.Examples.Runs.{small_env, small_world, small_db, new_title}

-- The last of January 2023, a Tuesday, at ten o'clock.
abbrev last_of_january : Date
last_of_january = record { year = 2023; month = 0; date = 31; ms = 36000000 }

abbrev each_month : RecurrenceSpec
each_month = record {
  frequency = monthly;
  interval = pos 1;
  weekdays_mask = none;
  day_of_month = some (pos 31);
  month_of_year = none;
  reminder_days_before = none;
  reminder_minute_of_day = none;
  end_date = none;
}

-- Mondays and Fridays.
abbrev two_weekdays : RecurrenceSpec
two_weekdays = record each_month {
  frequency = selected_weekdays;
  weekdays_mask = some (pos 17);
  day_of_month = none;
}

abbrev last_of_february : Date
last_of_february = record { year = 2023; month = 1; date = 28; ms = 36000000 }

abbrev friday : Date
friday = record { year = 2023; month = 1; date = 3; ms = 36000000 }

next_selected_weekday-IsFirst_example :
    (i : ℕ) × (1 ≤ i) × (i ≤ 7) × IsFirst (pos 17) last_of_january friday i
unfolding next_selected_weekday first_weekday add_days next_day dart_weekday day_number
next_selected_weekday-IsFirst_example =
    next_selected_weekday-IsFirst two_weekdays last_of_january friday refl

-- In month 0 a yearly rule gives the December before: a date that is not later.
abbrev month_zero : RecurrenceSpec
month_zero = record each_month { frequency = yearly; month_of_year = some (pos 0) }

abbrev last_of_december : Date
last_of_december = record { year = 2026; month = 11; date = 31; ms = 36000000 }

december_again : next_after month_zero last_of_december ≡ some last_of_december
unfolding next_after next_of next_yearly date_on make_date days_in_month
december_again = refl

-- The year 50 is one of the 1900s to `new Date`.
year_fifty :
    next_after each_month (record last_of_january { year = 50 })
    ≡ some (record last_of_february { year = 1950 })
unfolding next_after next_of next_monthly add_months date_on make_date days_in_month
year_fifty = refl

-- A reminder a day ahead, 61 minutes before midnight: `%` makes it two hours and a minute.
early_reminder :
    reminder_for
      (record each_month {
        reminder_days_before = some (pos 1);
        reminder_minute_of_day = some (negsuc 60);
      })
      last_of_february
    ≡ some (record { year = 2023; month = 1; date = 26; ms = 79140000 })
unfolding reminder_for sub_days prev_day at_minute
early_reminder = refl

-- A zone of whole days.
abbrev pub utc : Zone
utc = record { to_local = λ n. record last_of_january { ms = n }; to_instant = λ d. d.ms }

tasks-Isolated_example :
    Isolated "ann" small_db (create_task small_env utc "ann" new_title none small_world).1.db
    × Isolated "ann" small_db (update_task small_env utc "ann" "t1" new_title small_world).1.db
    × Isolated "ann" small_db (complete small_env utc "ann" "t1" none small_world).1.db
    × Isolated "ann" small_db (reopen small_env utc "ann" "t1" small_world).1.db
    × Isolated "ann" small_db (drop_task small_env utc "ann" "t1" small_world).1.db
    × Isolated "ann" small_db (carry_forward small_env utc "ann" "t1" small_world).1.db
    × Isolated "ann" small_db (remove_task small_env utc "ann" "t1" small_world).1.db
tasks-Isolated_example =
    tasks-Isolated small_env utc "ann" "t1" new_title none none small_world refl refl

checklist-Isolated_example :
    Isolated "ann" small_db (add_checklist_item small_env "ann" "t1" new_title small_world).1.db
    × Isolated "ann" small_db
        (update_checklist_item small_env "ann" "t1" new_title small_world).1.db
    × Isolated "ann" small_db (remove_checklist_item small_env "ann" "t1" small_world).1.db
checklist-Isolated_example = checklist-Isolated small_env "ann" "t1" new_title small_world

activity-Isolated_example :
    Isolated "ann" small_db (log_activity small_env "ann" new_title small_world).1.db
    × Isolated "ann" small_db (update_activity small_env "ann" "n1" new_title small_world).1.db
activity-Isolated_example = activity-Isolated small_env "ann" "n1" new_title small_world refl

resources-Isolated_example :
    Isolated "ann" small_db (create_organization small_env "ann" new_title small_world).1.db
    × Isolated "ann" small_db (update_organization small_env "ann" "n1" new_title small_world).1.db
    × Isolated "ann" small_db (create_project small_env "ann" new_title small_world).1.db
    × Isolated "ann" small_db (update_project small_env "ann" "n1" new_title small_world).1.db
    × Isolated "ann" small_db (create_decision small_env "ann" new_title small_world).1.db
    × Isolated "ann" small_db (update_decision small_env "ann" "n1" new_title small_world).1.db
    × Isolated "ann" small_db (create_requirement small_env "ann" new_title small_world).1.db
    × Isolated "ann" small_db (update_requirement small_env "ann" "n1" new_title small_world).1.db
    × Isolated "ann" small_db (create_note small_env "ann" new_title small_world).1.db
    × Isolated "ann" small_db (update_note small_env "ann" "n1" new_title small_world).1.db
    × Isolated "ann" small_db (archive small_env "ann" "n1" small_world).1.db
    × Isolated "ann" small_db (unarchive small_env "ann" "n1" small_world).1.db
resources-Isolated_example =
    resources-Isolated small_env "ann" "n1" new_title small_world refl refl refl

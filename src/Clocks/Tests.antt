-- ===== src/Clocks/Tests.antt =====
-- Runs of the clocks, and the theorems at small tables.
use enterprise_management.Base.{
  ℕ, ◌+◌, ◌*◌, ◌/◌, ◌≡◌, refl, Option, none, some, true, false, List, [], ◌∷◌, ◌++◌, Memᴰ, map, ok,
  pos, any, same, arith, AreDistinct,
}
use enterprise_management.StateFlags.{
  apply_state_flags, in_application_order, apply_field, set_flags, set_flags, apply_field,
  in_application_order, Flags, is_open, flag_eq, StateRow, ByValue, get_flag_map,
}
use enterprise_management.Clocks.{
  target_datetime, new_clock, apply_state_flags, validate_clock, save_clock, stopped, is_open_clock,
  Definition, time_in_state, round_the_clock, Clock, Site, Store, running, met, breached, cancelled,
  sla_clock, status_field, sla_breached, sla_warning, stop_clock,
}
use enterprise_management.Clocks.Sweep.{warn_clock, breach_clock, sweep}
use enterprise_management.Clocks.Sweeping.{
  AllKnown, after_sweep, notices_of, concat_map, hit, store_at, sweep-after,
}
use enterprise_management.Clocks.Sweeping.Again.{sweep-again}
use enterprise_management.Clocks.History.{
  LogRow, state_intervals, LogRow, Move, Subject, intervals_of,
}
use enterprise_management.Clocks.History.Stretches.{covers, state_at, intervals_of-state}
use enterprise_management.Clocks.Sync.{
  live_update, on_subject_update, responsible_users, stop_open, stop_found, applies_to,
  sync_subject, stop_found, sync_subject, stop_open, Saved, live_state,
}
use enterprise_management.Clocks.Durations.{shows, stretch, value_stretches, value_stretches-state}
use enterprise_management.Clocks.Sync.Live.{OneOpen, live_state-tracks}

abbrev open_only : Flags
open_only f = flag_eq f is_open

abbrev no_flags : Flags
no_flags f = false

abbrev row : ℕ → Flags → StateRow
row value flags = record {
  target_doctype = sla_clock;
  state_field = status_field;
  state_value = value;
  flags = flags;
}

abbrev rows : List StateRow
rows =
    row running open_only ∷ row met no_flags ∷ row breached no_flags ∷ row cancelled no_flags ∷ []

abbrev by_value : ByValue
by_value =
    (running, open_only) ∷ (met, no_flags) ∷ (breached, no_flags) ∷ (cancelled, no_flags) ∷ []

-- Ten hours in the state, with a warning at 80 per cent.
abbrev ten_hours : Definition
ten_hours = record {
  name = 1;
  target_doctype = 30;
  applies_when = none;
  measure = time_in_state;
  state_field = some 31;
  state_value = some 32;
  target_hours = 10 * 3600000000;
  warning_threshold_pct = 80;
  calendar = round_the_clock;
  business_calendar = none;
  creation = 0;
  active = true;
}

abbrev next_name : List Clock → ℕ
next_name [] = 100
next_name (c ∷ clocks) = c.name + 1

abbrev site : Site
site = record {
  definitions = ten_hours ∷ [];
  calendars = λ n. none;
  flag_rows = rows;
  workflow_field = none;
  share = λ span pct. span * pct / 100;
  fresh = next_name;
  satisfies = λ filters name. true;
  handled = λ name. none;
}

abbrev clock : ℕ → ℕ → Clock
clock name started_on = record {
  name = name;
  sla_definition = 1;
  subject_doctype = 30;
  subject_name = name + 50;
  started_on = started_on;
  target_on = started_on + 10 * 3600000000;
  stopped_on = none;
  paused_seconds = 0;
  elapsed_seconds = pos 0;
  status = running;
  open_flag = true;
  breached_on = none;
  warning_sent_on = none;
}

abbrev hour : ℕ
hour = 3600000000

-- At noon the first clock is overdue, the second near its target and the third new.
abbrev morning : Store
morning = record {
  clocks = clock 1 hour ∷ clock 2 (4 * hour) ∷ clock 3 (11 * hour) ∷ [];
  notices = [];
}

by_status : get_flag_map rows sla_clock ≡ (status_field, by_value) ∷ []
unfolding get_flag_map
by_status = refl

distinct : AreDistinct (map (λ (c : Clock). c.name) morning.clocks)
distinct = (refl, (refl, (refl, tt)))

known : AllKnown site morning.clocks
known c (Memᴰ.head e) opened = (ten_hours, rw e)
known c (Memᴰ.tail (Memᴰ.head e)) opened = (ten_hours, rw e)
known c (Memᴰ.tail (Memᴰ.tail (Memᴰ.head e))) opened = (ten_hours, rw e)
known c (Memᴰ.tail (Memᴰ.tail (Memᴰ.tail m))) opened = elim m [ ]

abbrev noon : ℕ
noon = 12 * hour

-- The clocks that the sweep leaves.
abbrev swept : List Clock
swept =
    record (clock 1 hour) { status = breached; breached_on = some noon; open_flag = false }
    ∷ record (clock 2 (4 * hour)) { warning_sent_on = some noon }
    ∷ clock 3 (11 * hour)
    ∷ []

sweep_runs :
    sweep site morning noon noon ≡ ok (store_at swept (sla_breached 1 ∷ sla_warning 2 ∷ []), 1 ∷ [])
unfolding sweep breach_clock warn_clock save_clock validate_clock apply_state_flags
    in_application_order get_flag_map apply_field set_flags
sweep_runs = refl

sweep-after_example :
    sweep site morning noon noon
    ≡ ok (
      store_at
          (map (after_sweep site noon noon) morning.clocks)
          (morning.notices ++ concat_map (notices_of site noon) morning.clocks),
      concat_map (hit noon) morning.clocks,
    )
sweep-after_example =
    sweep-after site by_value no_flags by_status refl refl noon noon morning distinct known

sweep-again_example :
    sweep site (store_at swept (sla_breached 1 ∷ sla_warning 2 ∷ [])) noon (13 * hour)
    ≡ ok (store_at swept (sla_breached 1 ∷ sla_warning 2 ∷ []), [])
sweep-again_example =
    sweep-again site by_value no_flags by_status refl refl noon noon (13 * hour) morning
      (store_at swept (sla_breached 1 ∷ sla_warning 2 ∷ [])) distinct known sweep_runs

-- A record made at one, in the state 32 from three to five and from eight on.
abbrev measured_record : Subject
measured_record = record { name = 60; creation = 1; modified = 8; value = some 32 }

abbrev moved : List Move
moved =
    record { when = 3; old = some 33; new = some 32 }
    ∷ record { when = 5; old = some 32; new = none }
    ∷ record { when = 8; old = none; new = some 32 }
    ∷ []

intervals_run : intervals_of (some 32) measured_record 20 moved ≡ (3, some 5) ∷ (8, none) ∷ []
unfolding intervals_of
intervals_run = refl

intervals_of-state_example :
    any (covers 4) (intervals_of (some 32) measured_record 20 moved)
    ≡ same (state_at (some 33) moved 4) (some 32)
intervals_of-state_example =
    intervals_of-state (some 32) measured_record 20 4 moved
      (omega arith, (omega arith, (omega arith, tt))) (omega arith) refl

-- The record 52, whose clock runs, leaves the state.
abbrev leaving : Saved
leaving = record {
  doctype = 30;
  name = 52;
  creation = 0;
  modified = 6 * hour;
  value = some 33;
  before = some (some 32);
  differs = true;
}

abbrev one_clock : Store
one_clock = record { clocks = clock 2 (4 * hour) ∷ []; notices = [] }

one_open : OneOpen 1 30 52 one_clock.clocks
one_open a b (Memᴰ.head e) (Memᴰ.head f) h k = rw (e, f)
one_open a b (Memᴰ.tail m) n h k = elim m [ ]
one_open a b (Memᴰ.head e) (Memᴰ.tail m) h k = elim m [ ]

abbrev stopped_clock : Clock
stopped_clock = record (clock 2 (4 * hour)) {
  stopped_on = some (6 * hour);
  elapsed_seconds = pos 7200;
  status = met;
  open_flag = false;
}

abbrev after_leaving : Store
after_leaving = record { clocks = stopped_clock ∷ []; notices = [] }

live_runs : live_state site one_clock ten_hours leaving (7 * hour) ≡ ok after_leaving
unfolding live_state stop_open stop_clock stopped save_clock validate_clock stop_found
    apply_state_flags in_application_order get_flag_map apply_field set_flags
live_runs = refl

in_scope : applies_to site ten_hours 30 52 ≡ true
unfolding applies_to
in_scope = refl

live_state-tracks_example :
    any (is_open_clock 1 30 52) after_leaving.clocks ≡ same (some 33) (some 32)
live_state-tracks_example =
    live_state-tracks site by_value open_only no_flags no_flags by_status refl refl refl refl refl
      refl one_clock ten_hours leaving (7 * hour) in_scope one_open refl live_runs

-- The same stretches in the log's own form, and the clocks that they get.
abbrev logged : ℕ → Option ℕ → Option ℕ → LogRow
logged when before after = record {
  ref_doctype = 30;
  docname = 60;
  creation = when;
  content = some (record {
    changed = record { field = 31; before = before; after = after } ∷ [];
    rows_differ = false;
  });
}

abbrev log : List LogRow
log =
    logged (8 * hour) none (some 32)
    ∷ logged (3 * hour) (some 33) (some 32)
    ∷ logged (5 * hour) (some 32) none
    ∷ []

abbrev synced : Store
synced = record {
  clocks =
      record (clock 100 (3 * hour)) {
        subject_name = 60;
        stopped_on = some (5 * hour);
        elapsed_seconds = pos 7200;
        status = met;
        open_flag = false;
      }
      ∷ record (clock 101 (8 * hour)) { subject_name = 60 }
      ∷ [];
  notices = [];
}

sync_runs :
    sync_subject site
      (record { clocks = []; notices = [] })
      log
      ten_hours
      60
      (some measured_record)
      (9 * hour)
    ≡ ok (synced, 100 ∷ 101 ∷ [])
unfolding sync_subject state_intervals new_clock target_datetime validate_clock apply_state_flags
    in_application_order get_flag_map apply_field stop_clock save_clock stopped set_flags
sync_runs = refl

-- A second run touches nothing.
sync_again :
    sync_subject site synced log ten_hours 60 (some measured_record) (9 * hour) ≡ ok (synced, [])
unfolding sync_subject state_intervals new_clock target_datetime validate_clock apply_state_flags
    in_application_order get_flag_map apply_field stop_clock save_clock stopped set_flags
sync_again = refl

value_stretches-state_example :
    any (shows (some 32) 4) (value_stretches measured_record moved)
    ≡ same (state_at (some 33) moved 4) (some 32)
value_stretches-state_example =
    value_stretches-state measured_record (some 32) 4 moved
      (omega arith, (omega arith, (omega arith, tt))) (omega arith) refl

-- The present value is 32, which the log does not show: a stretch of it, but no interval.
abbrev unlogged : List Move
unlogged = record { when = 3; old = some 33; new = none } ∷ []

unlogged_stretches :
    value_stretches measured_record unlogged
    ≡ stretch (some 33) 1 (some 3) ∷ stretch none 3 (some 8) ∷ stretch (some 32) 8 none ∷ []
unfolding value_stretches
unlogged_stretches = refl

unlogged_intervals : intervals_of (some 32) measured_record 20 unlogged ≡ []
unfolding intervals_of
unlogged_intervals = refl

-- The save of the record 52 as the hook sees it.
update_runs : on_subject_update site one_clock leaving (7 * hour) ≡ after_leaving
unfolding on_subject_update live_update stop_open stop_found stop_clock save_clock validate_clock
    apply_state_flags in_application_order get_flag_map apply_field stopped set_flags
update_runs = refl

owners : responsible_users true (none ∷ some 4 ∷ some 5 ∷ some 4 ∷ []) 9 ≡ 4 ∷ 5 ∷ []
unfolding responsible_users
owners = refl

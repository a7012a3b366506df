-- ===== src/Retention/Tests.antt =====
-- A disposal from the daily sweep to its execution, and the theorems on it.
use enterprise_management.Base.{
  Option, ◌*◌, ℕ, ◌+◌, ◌≡◌, refl, none, some, true, false, ◌||◌, List, [], ◌∷◌, if◌then◌else◌, ok,
  err, refused, modify, delete, four_eyes, approve_disposition,
}
use enterprise_management.StateFlags.{
  ByValue, apply_state_flags, in_application_order, apply_field, set_flags, Flags, is_open,
  is_editable, flag_eq, StateRow, get_flag_map,
}
use enterprise_management.Retention.{
  on_closure, Registry, Hold, Archive, RetentionClass, Event, destroy, dispose_of, Document,
  Session, scheduled, held, approved_label, executed, retained_label, status_field,
  disposition_event, guard_modification, guard_deletion, is_exempt, refuse_locked, retention_lock,
  active_legal_hold,
}
use enterprise_management.Retention.Events.{
  DateField, closed_on, disposition_due_date, new_event, save_event, validate_event,
  schedule_disposition, execute_disposition, validate_hold, disposition_pending, event_named,
  disposal_refusal,
}
use enterprise_management.Retention.Sweep.{
  hold_event, unhold, hold_event, Flagged, grouped, flag_due_for_disposal, release_hold,
}
use enterprise_management.Retention.Disposal.{
  records_manager, propose_disposition, approve_disposition_of, carry_out, release_legal_hold,
  may_manage, guard_hold, proposed_until,
}
use enterprise_management.Retention.Guards.{guard_modification-lock}
use enterprise_management.Retention.Lawful.{AllLawful}
use enterprise_management.Retention.Holding.{while_held, unhold-hold_event}
use enterprise_management.Retention.Runs.{Step, Run, Run-AllLawful}

abbrev open_flags : Flags
open_flags f = flag_eq f is_open || flag_eq f is_editable

abbrev no_flags : Flags
no_flags f = false

abbrev row : ℕ → Flags → StateRow
row value flags = record {
  target_doctype = disposition_event;
  state_field = status_field;
  state_value = value;
  flags = flags;
}

abbrev plan : Archive
plan = record {
  name = 1;
  subject_doctype = 60;
  subject_name = 61;
  retention_class = 3;
  disposition_due_on = some 100;
}

abbrev destroyed : RetentionClass
destroyed = record {
  trigger_event = on_closure;
  retention_period_months = 2;
  name = 3;
  disposition_action = destroy;
  requires_worm = true;
}

abbrev next_name : List Event → ℕ
next_name [] = 200
next_name (e ∷ events) = e.name + 1

-- One archive, past its date, and no events yet.
abbrev start : Registry
start = record {
  holds = [];
  assignments = [];
  classes = destroyed ∷ [];
  archives = plan ∷ [];
  events = [];
  flag_rows =
      row scheduled open_flags
      ∷ row held open_flags
      ∷ row approved_label open_flags
      ∷ row executed no_flags
      ∷ row retained_label no_flags
      ∷ [];
  workflow_field = none;
  query = λ filters doctype name. some true;
  fresh = next_name;
}

abbrev waiting : Event
waiting = new_event 200 plan destroy none

abbrev flagged : Registry
flagged = record start { events = waiting ∷ [] }

flag_runs :
    flag_due_for_disposal start 120
    ≡ ok (flagged, record { newly_scheduled = 200 ∷ []; newly_held = [] })
unfolding flag_due_for_disposal grouped disposition_pending schedule_disposition validate_event
    apply_state_flags in_application_order get_flag_map apply_field active_legal_hold set_flags
flag_runs = refl

abbrev manager : List ℕ
manager = records_manager ∷ []

abbrev proposal : Event
proposal = record waiting {
  decision = some dispose_of;
  decision_reason = some 9;
  proposed_by = some 7;
  proposed_on = some 121;
}

abbrev proposed : Registry
proposed = record start { events = proposal ∷ [] }

propose_runs :
    propose_disposition flagged 7 manager 200 (some dispose_of) (some 9) none 120 121
    ≡ ok (proposed, proposal)
unfolding propose_disposition may_manage proposed_until active_legal_hold save_event validate_event
    apply_state_flags in_application_order get_flag_map apply_field set_flags
propose_runs = refl

-- The proposer may not approve.
own_approval :
    approve_disposition_of proposed 7 manager 200 none 122
    ≡ err (refused (disposal_refusal plan approve_disposition four_eyes none))
unfolding approve_disposition_of may_manage
own_approval = refl

abbrev approval : Event
approval = record proposal { approved_by = some 8; approved_on = some 122; status = approved_label }

abbrev passed : Registry
passed = record start { events = approval ∷ [] }

approve_runs : approve_disposition_of proposed 8 manager 200 none 122 ≡ ok (passed, approval)
unfolding approve_disposition_of may_manage guard_hold active_legal_hold save_event validate_event
    apply_state_flags in_application_order get_flag_map apply_field set_flags
approve_runs = refl

abbrev disposed : Event
disposed = record approval {
  status = executed;
  open_flag = false;
  editable = false;
  executed_on = some 123;
  executed_by = some 7;
  evidence = some 10;
}

abbrev gone : Registry
gone = record start { events = disposed ∷ [] }

carry_out_runs : carry_out passed 7 manager 200 (some 10) 123 ≡ ok gone
unfolding carry_out may_manage guard_hold active_legal_hold execute_disposition save_event
    validate_event apply_state_flags in_application_order get_flag_map apply_field set_flags
carry_out_runs = refl

abbrev to_approval : Run start passed
to_approval = Run.goes start flagged passed (Step.flags_due 120 flagged _ flag_runs) (
    Run.goes flagged proposed passed
      (Step.proposes 7 manager 200 (some dispose_of) (some 9) none 120 121 proposed proposal
        propose_runs)
      (Run.goes proposed passed passed
        (Step.approves 8 manager 200 none 122 passed approval approve_runs) (Run.stays passed)))

nothing_yet : AllLawful start
nothing_yet e m = elim m [ ]

Run-AllLawful_example : AllLawful passed
Run-AllLawful_example = Run-AllLawful start passed to_approval nothing_yet

abbrev archived_record : Document
archived_record = record { doctype = 60; name = 61; is_new = false; is_table = false }

abbrev quiet : Session
quiet = record {
  exempt_doctypes = disposition_event ∷ [];
  in_install = false;
  in_migrate = false;
  in_patch = false;
  in_import = false;
  in_setup_wizard = false;
}

guard_modification-lock_example :
    (guard_modification start quiet archived_record ≡ (
      if archived_record.is_new || is_exempt quiet archived_record
      then ok tt
      else refuse_locked (retention_lock start 60 61) archived_record modify))
    × (guard_deletion start quiet archived_record ≡ (
        if is_exempt quiet archived_record
        then ok tt
        else refuse_locked (retention_lock start 60 61) archived_record delete))
guard_modification-lock_example = guard_modification-lock start quiet archived_record

-- A hold that ended on its own date while it still stood on the event, and is released afterwards:
-- the event that was carried out is scheduled, and open, again.
abbrev ended : Hold
ended = record {
  name = 5;
  scope_doctype = 60;
  scope_filter = none;
  placed_on = some 90;
  released_on = some 110;
  active = false;
}

abbrev kept_hold : Event
kept_hold = record disposed { held_by_legal_hold = some 5 }

abbrev after_hold : Registry
after_hold = record start { holds = ended ∷ []; events = kept_hold ∷ [] }

abbrev reopened : Registry
reopened = record start {
  holds = ended ∷ [];
  events =
      record kept_hold {
        status = scheduled;
        open_flag = true;
        editable = true;
        held_by_legal_hold = none;
      }
      ∷ [];
}

release_runs : release_legal_hold after_hold 7 manager true 5 (some 9) 130 ≡ ok reopened
unfolding release_legal_hold may_manage release_hold validate_hold save_event validate_event
    apply_state_flags in_application_order get_flag_map apply_field set_flags
release_runs = refl

-- The flags by status, and the record under a hold in force.
abbrev by_value : ByValue
by_value =
    (scheduled, open_flags)
    ∷ (held, open_flags)
    ∷ (approved_label, open_flags)
    ∷ (executed, no_flags)
    ∷ (retained_label, no_flags)
    ∷ []

by_status : get_flag_map start.flag_rows disposition_event ≡ (status_field, by_value) ∷ []
unfolding get_flag_map
by_status = refl

abbrev in_force : Hold
in_force = record ended { released_on = none; active = true }

abbrev under_hold : Registry
under_hold = record flagged { holds = in_force ∷ [] }

is_under : active_legal_hold under_hold 60 61 ≡ some in_force
unfolding active_legal_hold
is_under = refl

abbrev nothing_out : Flagged
nothing_out = record { newly_scheduled = []; newly_held = [] }

unhold-hold_event_example :
    (r' : Registry) × (out' : Flagged) × (hold_event under_hold nothing_out waiting ≡ ok (r', out'))
    × (event_named 200 r' ≡ some (while_held waiting open_flags 5))
    × (unhold r' 200 ≡ ok under_hold)
unhold-hold_event_example =
    unhold-hold_event under_hold by_value by_status nothing_out open_flags open_flags refl refl
      is_under refl refl refl refl (refl, tt) refl

-- A record closed on day 30, in months of 30 days; a DocType without the field counts from creation.
abbrev closed_thirty : ℕ → ℕ → DateField → Option ℕ
closed_thirty doctype name closed_on = some 30
closed_thirty doctype name _ = some 4

abbrev plus_months : ℕ → ℕ → ℕ
plus_months day months = day + months * 30

due_run :
    disposition_due_date plus_months (λ doctype field. true) closed_thirty start 3 60 61 99 ≡ ok 90
unfolding disposition_due_date
due_run = refl

due_without_field :
    disposition_due_date plus_months (λ doctype field. false) closed_thirty start 3 60 61 99 ≡ ok 64
unfolding disposition_due_date
due_without_field = refl

-- ===== src/Retention/Events.antt =====
-- consilium_core/retention.py: disposal events, scheduled and carried out, with the controllers of the
-- Disposition Event and the Legal Hold.
use enterprise_management.Base.{
  or_else, ℕ, Option, none, some, Bool, true, false, not, ◌&&◌, ◌||◌, List, [], ◌∷◌, ◌++◌,
  if◌then◌else◌, ltb, leb, is_some, is_before, any, read, write, Result, ok, err, demand, refuse_if,
  throw_if, thrown, refused, record_missing, Refusal, Attempt, dispose, Control, legal_hold,
  disposition_approval, released_before_placed, no_named_approver, ◌>>=◌, ◌>>◌,
}
use enterprise_management.StateFlags.{get_flag_map, apply_state_flags}
use enterprise_management.Retention.{
  Trigger, on_creation, on_modification, on_effective_date, on_retirement, on_closure,
  on_disbandment, Hold, Action, RetentionClass, Archive, Choice, Event, scheduled, held, executed,
  disposition_event, event_doc, Registry, active_legal_hold, dispose_of, retain,
}

module _ (r : Registry) where
  -- DispositionEvent.validate
  unfoldable pub validate_event : Event → Result Event
  validate_event e = do
    f ← apply_state_flags event_doc r.workflow_field (get_flag_map r.flag_rows disposition_event) e
    throw_if (is_some f.executed_on && not (is_some f.approved_by)) no_named_approver
    ok f

  unfoldable pub save_event : Event → Result (Registry × Event)
  save_event e = do
    f ← validate_event e
    ok (record r { events = write (λ (d : Event). d.name) f r.events }, f)

-- LegalHold.validate
abbrev pub has_come : Option ℕ → ℕ → Bool
has_come none today = false
has_come (some day) today = leb day today

abbrev pub released_early : Option ℕ → Option ℕ → Bool
released_early (some released) (some placed) = ltb released placed
released_early _ _ = false

unfoldable pub validate_hold : Hold → ℕ → Result Hold
validate_hold h today = do
  throw_if (released_early h.released_on h.placed_on) released_before_placed
  ok (record h { active = has_come h.placed_on today && not (has_come h.released_on today) })

abbrev pub need {ℓ} : {A : Type ℓ} → Option A → Result A
need o = demand o (thrown record_missing)

abbrev pub event_named : ℕ → Registry → Option Event
event_named n r = read (λ (e : Event). e.name) n r.events

abbrev pub archive_named : ℕ → Registry → Option Archive
archive_named n r = read (λ (a : Archive). a.name) n r.archives

abbrev pub name_of_hold : Option Hold → Option ℕ
name_of_hold none = none
name_of_hold (some h) = some h.name

-- The event that `schedule_disposition` inserts.
abbrev pub new_event : ℕ → Archive → Action → Option Hold → Event
new_event name a action hold = record {
  name = name;
  archive_record = a.name;
  due_on = a.disposition_due_on;
  action = action;
  status = if is_some hold then held else scheduled;
  open_flag = true;
  editable = true;
  held_by_legal_hold = name_of_hold hold;
  decision = none;
  decision_reason = none;
  retained_until = none;
  proposed_by = none;
  proposed_on = none;
  approved_by = none;
  approved_on = none;
  approval_note = none;
  executed_on = none;
  executed_by = none;
  evidence = none;
}

unfoldable pub schedule_disposition : Registry → ℕ → Result (Registry × Event)
schedule_disposition r archive = do
  a ← need (archive_named archive r)
  c ← need (read (λ (c : RetentionClass). c.name) a.retention_class r.classes)
  e ← validate_event r (
      new_event (r.fresh r.events) a c.disposition_action
        (active_legal_hold r a.subject_doctype a.subject_name))
  ok (record r { events = r.events ++ e ∷ [] }, e)

abbrev pub disposal_refusal : Archive → Attempt → Control → Option ℕ → Refusal
disposal_refusal a attempt control hold = record {
  subject_doctype = a.subject_doctype;
  subject_name = a.subject_name;
  attempted_action = attempt;
  control = control;
  retention_class = none;
  legal_hold = hold;
}

-- A disposal of a record under a legal hold is refused.
abbrev pub refuse_held : Option Hold → Archive → Result (Unit {0})
refuse_held none a = ok tt
refuse_held (some h) a = err (refused (disposal_refusal a dispose legal_hold (some h.name)))

unfoldable pub execute_disposition : Registry → ℕ → Option ℕ → ℕ → Result (Registry × Event)
execute_disposition r event evidence now = do
  e ← need (event_named event r)
  a ← need (archive_named e.archive_record r)
  refuse_held (active_legal_hold r a.subject_doctype a.subject_name) a
  refuse_if (not (is_some e.approved_by)) (disposal_refusal a dispose disposition_approval none)
  save_event r (record e { status = executed; executed_on = some now; evidence = evidence })

abbrev pub chose : Option Choice → Choice → Bool
chose (some dispose_of) dispose_of = true
chose (some retain) retain = true
chose _ _ = false

-- `_retained`
unfoldable pub is_retained : Event → ℕ → Bool
is_retained e as_of =
    chose e.decision retain && is_some e.approved_by && not (is_before e.retained_until as_of)

-- `_disposition_pending`
unfoldable pub disposition_pending : List Event → ℕ → Bool
unfolding is_retained
disposition_pending events as_of =
    any (λ e. e.open_flag || is_some e.executed_on || is_retained e as_of) events

-- The date fields of `trigger_fields`.
pub data DateField : Type 0 where
  creation modified effective_date retired_on closed_on disbanded_on : DateField

abbrev pub trigger_field : Trigger → DateField
trigger_field on_creation = creation
trigger_field on_modification = modified
trigger_field on_effective_date = effective_date
trigger_field on_retirement = retired_on
trigger_field on_closure = closed_on
trigger_field on_disbandment = disbanded_on

-- Every DocType has `creation` and `modified`.
abbrev pub is_standard : DateField → Bool
is_standard creation = true
is_standard modified = true
is_standard _ = false

-- `add_months` is the framework's, and `has_field` and `date_of` its reading of a DocType and a record.
unfoldable pub disposition_due_date :
    (ℕ → ℕ → ℕ)
    → (ℕ → DateField → Bool)
    → (ℕ → ℕ → DateField → Option ℕ)
    → Registry
    → ℕ
    → ℕ
    → ℕ
    → ℕ
    → Result ℕ
disposition_due_date add_months has_field date_of r retention_class doctype name today = do
  c ← need (read (λ (c : RetentionClass). c.name) retention_class r.classes)
  let field = trigger_field c.trigger_event
  let used = if is_standard field || has_field doctype field then field else creation
  ok (add_months (or_else (date_of doctype name used) today) c.retention_period_months)

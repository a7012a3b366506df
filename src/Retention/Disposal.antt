-- ===== src/Retention/Disposal.antt =====
-- consilium_core/records.py: a disposal is proposed by one records manager, approved by another and
-- then carried out. The redaction of the record is an argument: its evidence.
use enterprise_management.Base.{
  demand, ℕ, Option, none, some, Bool, true, false, not, ◌&&◌, ◌||◌, List, if◌then◌else◌, ◌==◌, leb,
  is_some, holds_name, any, read, write, Result, ok, refuse_if, throw_if, thrown, dispose,
  approve_disposition, permanent_class, four_eyes, disposition_approval, no_permission,
  already_decided, already_approved, decision_required, reason_required, date_in_the_past,
  review_date_required, no_proposal, nothing_to_execute, ◌>>=◌, ◌>>◌,
}
use enterprise_management.Retention.{
  Registry, Archive, Event, Choice, dispose_of, retain, Action, archive_permanently, approved_label,
  Hold, retained_label, active_legal_hold,
}
use enterprise_management.Retention.Events.{
  execute_disposition, need, event_named, archive_named, disposal_refusal, refuse_held, save_event,
  chose,
}
use enterprise_management.Retention.Sweep.{release_hold}

abbrev pub guest : ℕ
guest = 0

-- RECORDS_ROLES
abbrev pub records_manager : ℕ
records_manager = 50

abbrev pub system_manager : ℕ
system_manager = 51

-- `may_manage`, of a user with these roles.
unfoldable pub may_manage : ℕ → List ℕ → Bool
may_manage user roles =
    not (user == guest) && any (λ role. role == records_manager || role == system_manager) roles

abbrev pub require_manager : ℕ → List ℕ → Result (Unit {0})
require_manager me roles = throw_if (not (may_manage me roles)) no_permission

abbrev pub require_open : Event → Result (Unit {0})
require_open e = throw_if (not e.open_flag) already_decided

unfoldable pub guard_hold : Registry → Archive → Result (Unit {0})
guard_hold r a = refuse_held (active_legal_hold r a.subject_doctype a.subject_name) a

abbrev pub is_permanent : Action → Bool
is_permanent archive_permanently = true
is_permanent _ = false

-- What a proposal must satisfy; the result is the `retained_until` that it stores.
unfoldable pub proposed_until :
    Registry → Event → Archive → Choice → Option ℕ → ℕ → Result (Option ℕ)
unfolding guard_hold
proposed_until r e a dispose_of until today = do
  guard_hold r a
  refuse_if (is_permanent e.action) (disposal_refusal a dispose permanent_class none)
  ok none
proposed_until r e a retain (some until) today = do
  throw_if (leb until today) date_in_the_past
  ok (some until)
proposed_until r e a retain none today = do
  throw_if (not (is_permanent e.action)) review_date_required
  ok none

-- A missing decision or a blank reason is `none`.
unfoldable pub propose_disposition :
    Registry
    → ℕ
    → List ℕ
    → ℕ
    → Option Choice
    → Option ℕ
    → Option ℕ
    → ℕ
    → ℕ
    → Result (Registry × Event)
propose_disposition r me roles event decision reason until today now = do
  require_manager me roles
  e ← need (event_named event r)
  a ← need (archive_named e.archive_record r)
  require_open e
  throw_if (is_some e.approved_by) already_approved
  choice ← demand decision (thrown decision_required)
  throw_if (not (is_some reason)) reason_required
  kept ← proposed_until r e a choice until today
  save_event r (record e {
    decision = some choice;
    decision_reason = reason;
    retained_until = kept;
    proposed_by = some me;
    proposed_on = some now;
  })

-- The comment that carries the note is left out.
unfoldable pub send_back_disposition :
    Registry → ℕ → List ℕ → ℕ → Option ℕ → Result (Registry × Event)
send_back_disposition r me roles event text = do
  require_manager me roles
  e ← need (event_named event r)
  a ← need (archive_named e.archive_record r)
  require_open e
  throw_if (is_some e.approved_by || not (is_some e.decision)) no_proposal
  throw_if (not (is_some text)) reason_required
  save_event r (record e {
    decision = none;
    decision_reason = none;
    retained_until = none;
    proposed_by = none;
    proposed_on = none;
  })

abbrev pub guard_if_disposed : Option Choice → Registry → Archive → Result (Unit {0})
guard_if_disposed (some dispose_of) r a = guard_hold r a
guard_if_disposed _ r a = ok tt

unfoldable pub approve_disposition_of :
    Registry → ℕ → List ℕ → ℕ → Option ℕ → ℕ → Result (Registry × Event)
approve_disposition_of r me roles event text now = do
  require_manager me roles
  e ← need (event_named event r)
  a ← need (archive_named e.archive_record r)
  require_open e
  throw_if (not (is_some e.decision) || not (is_some e.proposed_by)) no_proposal
  throw_if (is_some e.approved_by) already_approved
  refuse_if (holds_name e.proposed_by me) (disposal_refusal a approve_disposition four_eyes none)
  guard_if_disposed e.decision r a
  save_event r (record e {
    approved_by = some me;
    approved_on = some now;
    approval_note = text;
    status = if chose e.decision dispose_of then approved_label else retained_label;
  })

-- `frappe.db.set_value(EVENT, ..., "executed_by", me)`
abbrev pub signed : Registry → Event → ℕ → Registry
signed r e me = record r {
  events = write (λ (d : Event). d.name) (record e { executed_by = some me }) r.events;
}

-- `execute_disposition` of the screen, which calls the one of the retention rules.
unfoldable pub carry_out : Registry → ℕ → List ℕ → ℕ → Option ℕ → ℕ → Result Registry
carry_out r me roles event evidence now = do
  require_manager me roles
  e ← need (event_named event r)
  a ← need (archive_named e.archive_record r)
  require_open e
  throw_if (not (chose e.decision dispose_of)) nothing_to_execute
  guard_hold r a
  refuse_if (not (is_some e.approved_by)) (disposal_refusal a dispose disposition_approval none)
  (r', done) ← execute_disposition r e.name evidence now
  ok (signed r' done me)

-- `may_write` is the permission that the framework gives on Legal Hold.
unfoldable pub release_legal_hold :
    Registry → ℕ → List ℕ → Bool → ℕ → Option ℕ → ℕ → Result Registry
release_legal_hold r me roles may_write hold reason today = do
  require_manager me roles
  throw_if (not may_write) no_permission
  h ← need (read (λ (h : Hold). h.name) hold r.holds)
  throw_if (not (is_some reason)) reason_required
  release_hold r hold today

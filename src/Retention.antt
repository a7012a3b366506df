-- ===== src/Retention.antt =====
-- consilium_core/retention.py with the Legal Hold and Disposition Event controllers: what locks a
-- record, and the disposal of an archived one. A day is a number; the tables exist, as they do on
-- an installed site. Retention/Disposal is the records screen.
pub mod Events
pub mod Guards
pub mod Holding
pub mod Lawful
pub mod TwoPeople
pub mod Steps
pub mod Runs
mod Tests
pub mod Sweep
pub mod Disposal
use enterprise_management.Base.{
  ℕ, ◌≡◌, Option, none, some, Bool, true, false, not, ◌&&◌, ◌||◌, List, [], ◌∷◌, ◌++◌,
  if◌then◌else◌, ◌==◌, ltb, leb, is_some, is_before, or_else, same, any, contains, find, filter,
  sort_by, read, write, lex, arith, Result, ok, err, demand, refuse_if, throw_if, thrown, refused,
  record_missing, Refusal, Attempt, modify, delete, dispose, Control, retention, legal_hold,
  disposition_approval, released_before_placed, no_named_approver, ◌>>=◌, ◌>>◌,
}
use enterprise_management.StateFlags.{
  Flag, is_open, is_editable, Stateful, StateRow, flag_eq, get_flag_map, apply_state_flags,
}

-- A Legal Hold. A filter is named by a number; a missing one selects every record.
pub record Hold : Type 0 where
  pub name : ℕ
  pub scope_doctype : ℕ
  pub scope_filter : Option ℕ
  pub placed_on : Option ℕ
  pub released_on : Option ℕ
  pub active : Bool

-- A Retention Assignment; a priority is counted from the lowest.
pub record Assignment : Type 0 where
  pub name : ℕ
  pub target_doctype : ℕ
  pub record_filter : Option ℕ
  pub retention_class : ℕ
  pub priority : ℕ
  pub modified : ℕ
  pub active : Bool

-- `action` of an event and `disposition_action` of a class.
pub data Action : Type 0 where
  destroy archive_permanently review : Action

-- `trigger_event` of a class.
pub data Trigger : Type 0 where
  on_creation on_modification on_effective_date on_retirement on_closure on_disbandment : Trigger

-- A Retention Class.
pub record RetentionClass : Type 0 where
  pub trigger_event : Trigger
  pub retention_period_months : ℕ
  pub name : ℕ
  pub disposition_action : Action
  pub requires_worm : Bool

-- An Archive Record.
pub record Archive : Type 0 where
  pub name : ℕ
  pub subject_doctype : ℕ
  pub subject_name : ℕ
  pub retention_class : ℕ
  pub disposition_due_on : Option ℕ

-- `decision` of an event.
pub data Choice : Type 0 where
  dispose_of retain : Choice

-- A Disposition Event.
pub record Event : Type 0 where
  pub name : ℕ
  pub archive_record : ℕ
  pub due_on : Option ℕ
  pub action : Action
  pub status : ℕ
  pub open_flag : Bool
  pub editable : Bool
  pub held_by_legal_hold : Option ℕ
  pub decision : Option Choice
  pub decision_reason : Option ℕ
  pub retained_until : Option ℕ
  pub proposed_by : Option ℕ
  pub proposed_on : Option ℕ
  pub approved_by : Option ℕ
  pub approved_on : Option ℕ
  pub approval_note : Option ℕ
  pub executed_on : Option ℕ
  pub executed_by : Option ℕ
  pub evidence : Option ℕ

-- The labels of `status`.
abbrev pub scheduled : ℕ
scheduled = 1

abbrev pub held : ℕ
held = 2

abbrev pub approved_label : ℕ
approved_label = 3

abbrev pub executed : ℕ
executed = 4

abbrev pub retained_label : ℕ
retained_label = 6

abbrev pub status_field : ℕ
status_field = 40

abbrev pub disposition_event : ℕ
disposition_event = 41

abbrev pub declares : Flag → Bool
declares is_open = true
declares is_editable = true
declares _ = false

abbrev pub flag_of : Event → Flag → Bool
flag_of e is_open = e.open_flag
flag_of e is_editable = e.editable
flag_of e _ = false

abbrev pub set_flag : Event → Flag → Bool → Event
set_flag e is_open b = record e { open_flag = b }
set_flag e is_editable b = record e { editable = b }
set_flag e _ b = e

abbrev pub value_of : Event → ℕ → Option ℕ
value_of e field = if field == status_field then some e.status else none

pub value-set_flag :
    (e : Event) (f : Flag) (b : Bool) (field : ℕ)
    → value_of (set_flag e f b) field ≡ value_of e field
value-set_flag e f b field = ground arith

pub flag-set_flag :
    (e : Event) (f g : Flag) (b : Bool)
    → declares f ≡ true
    → flag_of (set_flag e f b) g ≡ (if flag_eq f g then b else flag_of e g)
flag-set_flag e f g b h = ground arith

abbrev pub event_doc : Stateful Event
event_doc = record {
  has_field = λ field. field == status_field;
  has_flag = declares;
  value = value_of;
  flag = flag_of;
  set = set_flag;
  value-set = value-set_flag;
  flag-set = flag-set_flag;
}

-- The tables. `query` runs a filter of a DocType on a record's name, and is missing where the query
-- raises; `fresh` names a new event.
pub record Registry : Type 0 where
  pub holds : List Hold
  pub assignments : List Assignment
  pub classes : List RetentionClass
  pub archives : List Archive
  pub events : List Event
  pub flag_rows : List StateRow
  pub workflow_field : Option ℕ
  pub query : Option ℕ → ℕ → ℕ → Option Bool
  pub fresh : List Event → ℕ

-- `_matches`: an unusable filter selects.
abbrev pub selects : Option Bool → Bool
selects none = true
selects (some b) = b

-- A lock, with the class or the hold that it names.
pub record Lock : Type 0 where
  pub by_class : Option ℕ
  pub by_hold : Option ℕ

-- What `_guarded` reads of a document, and of the session.
pub record Document : Type 0 where
  pub doctype : ℕ
  pub name : ℕ
  pub is_new : Bool
  pub is_table : Bool

pub record Session : Type 0 where
  pub exempt_doctypes : List ℕ
  pub in_install : Bool
  pub in_migrate : Bool
  pub in_patch : Bool
  pub in_import : Bool
  pub in_setup_wizard : Bool

abbrev pub is_exempt : Session → Document → Bool
is_exempt s d =
    contains s.exempt_doctypes d.doctype
    || d.is_table
    || s.in_install
    || s.in_migrate
    || s.in_patch
    || s.in_import
    || s.in_setup_wizard

abbrev pub lock_refusal : Document → Attempt → Lock → Refusal
lock_refusal d attempt l = record {
  subject_doctype = d.doctype;
  subject_name = d.name;
  attempted_action = attempt;
  control = retention;
  retention_class = l.by_class;
  legal_hold = l.by_hold;
}

abbrev pub refuse_locked : Option Lock → Document → Attempt → Result (Unit {0})
refuse_locked none d attempt = ok tt
refuse_locked (some l) d attempt = err (refused (lock_refusal d attempt l))

module _ (r : Registry) where
  abbrev pub is_hold_on : ℕ → ℕ → Hold → Bool
  is_hold_on doctype name h =
      h.scope_doctype == doctype && h.active && selects (r.query h.scope_filter doctype name)

  unfoldable pub active_legal_hold : ℕ → ℕ → Option Hold
  active_legal_hold doctype name = find (is_hold_on doctype name) r.holds

  -- `priority desc, modified desc`
  abbrev pub outranks : Assignment → Assignment → Bool
  outranks a b = lex b.priority b.modified a.priority a.modified

  abbrev pub is_assigned_to : ℕ → Assignment → Bool
  is_assigned_to doctype a = a.target_doctype == doctype && a.active

  unfoldable pub effective_retention : ℕ → ℕ → Option Assignment
  effective_retention doctype name =
      find (λ a. selects (r.query a.record_filter doctype name))
        (sort_by outranks (filter (is_assigned_to doctype) r.assignments))

  abbrev pub is_archive_of : ℕ → ℕ → Archive → Bool
  is_archive_of doctype name a = a.subject_doctype == doctype && a.subject_name == name

  abbrev pub worm_lock : Option RetentionClass → Option Lock
  worm_lock none = none
  worm_lock (some c) =
      if c.requires_worm then some (record { by_class = some c.name; by_hold = none }) else none

  abbrev pub class_lock : Option Assignment → Option Lock
  class_lock none = none
  class_lock (some a) =
      worm_lock (read (λ (c : RetentionClass). c.name) a.retention_class r.classes)

  unfoldable pub lock_under : Option Hold → ℕ → ℕ → Option Lock
  lock_under (some h) doctype name = some (record { by_class = none; by_hold = some h.name })
  lock_under none doctype name =
      if any (is_archive_of doctype name) r.archives
      then some (record { by_class = none; by_hold = none })
      else class_lock (effective_retention doctype name)

  unfoldable pub retention_lock : ℕ → ℕ → Option Lock
  unfolding lock_under
  retention_lock doctype name = lock_under (active_legal_hold doctype name) doctype name

  -- `doctype in _controlled_doctypes()`, with the cache as the queries fill it.
  unfoldable pub is_controlled : ℕ → Bool
  is_controlled doctype =
      any (is_assigned_to doctype) r.assignments
      || any (λ h. h.scope_doctype == doctype && h.active) r.holds
      || any (λ a. a.subject_doctype == doctype) r.archives

  unfoldable pub is_guarded : Session → Document → Bool
  is_guarded s d = if is_exempt s d then false else is_controlled d.doctype

  unfoldable pub guard_modification : Session → Document → Result (Unit {0})
  guard_modification s d =
      if d.is_new || not (is_guarded s d)
      then ok tt
      else refuse_locked (retention_lock d.doctype d.name) d modify

  unfoldable pub guard_deletion : Session → Document → Result (Unit {0})
  guard_deletion s d =
      if not (is_guarded s d)
      then ok tt
      else refuse_locked (retention_lock d.doctype d.name) d delete

-- ===== src/Approvals.antt =====
-- consilium_core/approvals.py and the Approval Decision controller.
pub mod Turns
pub mod Recording
mod Tests
use enterprise_management.Base.{
  get, put, ℕ, ◌≡◌, refl, Option, none, some, Bool, true, false, not, ◌&&◌, ◌||◌, List, [], ◌∷◌,
  ◌++◌, map, if◌then◌else◌, ◌==◌, ltb, leb, lex, same, is_some, filter, is_empty, sort_by, write,
  Result, ok, Refusal, other, sequential_approval_order, delegation, refuse_if, ◌>>=◌, ◌>>◌, arith,
}
use enterprise_management.StateFlags.{
  Flag, is_open, requires_review, is_affirmative, StateRow, Stateful, flag_eq, get_flag_map,
  apply_state_flags,
}
use enterprise_management.Delegation.{Delegation, Resolution, action_approve, resolve_actor}

pub data Mode : Type 0 where
  sequential parallel : Mode

pub record Decision : Type 0 where
  pub name : ℕ
  pub subject_doctype : ℕ
  pub subject_name : ℕ
  pub approval_step : ℕ
  pub step_sequence : ℕ
  pub mode : Option Mode
  pub required_role : Option ℕ
  pub assigned_to : ℕ
  pub acting_delegation : Option ℕ
  pub acted_by : Option ℕ
  pub decision : ℕ
  pub open_flag : Bool
  pub review_flag : Bool
  pub affirmative_flag : Bool
  pub decided_on : Option ℕ
  pub comments : Option ℕ
  pub classification_at_decision : Option ℕ
  pub based_on_version : Option ℕ
  pub exception_authorisation : Option ℕ
  pub docstatus : ℕ
  pub creation : ℕ

-- The DocType and its state field.
abbrev pub approval_decision : ℕ
approval_decision = 1

abbrev pub decision_field : ℕ
decision_field = 1

-- The label that a step starts with.
abbrev pub pending : ℕ
pending = 0

abbrev pub declares : Flag → Bool
declares is_open = true
declares requires_review = true
declares is_affirmative = true
declares _ = false

abbrev pub flag_of : Decision → Flag → Bool
flag_of d is_open = d.open_flag
flag_of d requires_review = d.review_flag
flag_of d is_affirmative = d.affirmative_flag
flag_of d _ = false

abbrev pub set_flag : Decision → Flag → Bool → Decision
set_flag d is_open b = record d { open_flag = b }
set_flag d requires_review b = record d { review_flag = b }
set_flag d is_affirmative b = record d { affirmative_flag = b }
set_flag d _ b = d

abbrev pub value_of : Decision → ℕ → Option ℕ
value_of d field = if field == decision_field then some d.decision else none

pub value-set_flag :
    (d : Decision) (f : Flag) (b : Bool) (field : ℕ)
    → value_of (set_flag d f b) field ≡ value_of d field
value-set_flag d f b field = ground arith

pub flag-set_flag :
    (d : Decision) (f g : Flag) (b : Bool)
    → declares f ≡ true
    → flag_of (set_flag d f b) g ≡ (if flag_eq f g then b else flag_of d g)
flag-set_flag d f g b h = ground arith

abbrev pub decision_doc : Stateful Decision
decision_doc = record {
  has_field = λ field. field == decision_field;
  has_flag = declares;
  value = value_of;
  flag = flag_of;
  set = set_flag;
  value-set = value-set_flag;
  flag-set = flag-set_flag;
}

-- The tables that the functions read and write.
pub record Store : Type 0 where
  pub decisions : List Decision
  pub delegations : List Delegation
  pub flag_rows : List StateRow
  pub workflow_field : Option ℕ

-- The controller's `validate`.
unfoldable pub validate : Store → Decision → Result Decision
validate store d =
    apply_state_flags decision_doc store.workflow_field
      (get_flag_map store.flag_rows approval_decision) d

unfoldable pub save : Store → Decision → Result (Store × Decision)
save store d = do
  d' ← validate store d
  ok (record store { decisions = write (λ (r : Decision). r.name) d' store.decisions }, d')

-- What the caller gives; `name` and `creation` are the framework's.
pub record Request : Type 0 where
  pub subject_doctype : ℕ
  pub subject_name : ℕ
  pub approval_step : ℕ
  pub assigned_to : ℕ
  pub step_sequence : ℕ
  pub mode : Mode
  pub required_role : Option ℕ
  pub classification_at_decision : Option ℕ
  pub based_on_version : Option ℕ

-- `current` is the name of the subject's current version, where it has one.
unfoldable pub request_decision : Store → Request → Option ℕ → ℕ → ℕ → Result (Store × Decision)
request_decision store r current name creation = do
  let based_on = if is_some r.based_on_version then r.based_on_version else current
  d ← validate store (record {
    name = name;
    subject_doctype = r.subject_doctype;
    subject_name = r.subject_name;
    approval_step = r.approval_step;
    step_sequence = r.step_sequence;
    mode = some r.mode;
    required_role = r.required_role;
    assigned_to = r.assigned_to;
    acting_delegation = none;
    acted_by = none;
    decision = pending;
    open_flag = true;
    review_flag = false;
    affirmative_flag = false;
    decided_on = none;
    comments = none;
    classification_at_decision = r.classification_at_decision;
    based_on_version = based_on;
    exception_authorisation = none;
    docstatus = 0;
    creation = creation;
  })
  ok (record store { decisions = store.decisions ++ d ∷ [] }, d)

-- `(row.mode or SEQUENTIAL) != SEQUENTIAL`
abbrev pub is_parallel : Option Mode → Bool
is_parallel none = false
is_parallel (some sequential) = false
is_parallel (some parallel) = true

-- The filters of the query.
abbrev pub is_earlier_open : Decision → Decision → Bool
is_earlier_open row r =
    r.subject_doctype == row.subject_doctype
    && (r.subject_name == row.subject_name
        && (r.open_flag
            && (ltb r.docstatus 2
                && (ltb r.step_sequence row.step_sequence && not (r.name == row.name)))))

abbrev pub in_cycle_of : Decision → Decision → Bool
in_cycle_of row r = same r.based_on_version row.based_on_version

unfoldable pub waiting_on : Store → Decision → List Decision
waiting_on store row =
    if is_parallel row.mode
    then []
    else filter (in_cycle_of row) (
        sort_by (λ a b. lex a.step_sequence a.creation b.step_sequence b.creation)
          (filter (is_earlier_open row) store.decisions))

unfoldable pub is_turn : Store → Decision → Bool
is_turn store row = is_empty (waiting_on store row)

abbrev pub about : Decision → Refusal
about row = record {
  subject_doctype = row.subject_doctype;
  subject_name = row.subject_name;
  attempted_action = other;
  control = sequential_approval_order;
  retention_class = none;
  legal_hold = none;
}

abbrev pub out_of_turn : Decision → Refusal
out_of_turn row = about row

abbrev pub not_permitted : Decision → Refusal
not_permitted row = record (about row) { control = delegation }

abbrev pub resolution_of : Store → Decision → ℕ → ℕ → Resolution
resolution_of store row acting_user today =
    resolve_actor store.delegations row.assigned_to action_approve acting_user
      (some row.subject_doctype) (some row.subject_name) today

-- The fields that a decision sets.
abbrev pub decided : Decision → ℕ → Option ℕ → ℕ → Option ℕ → Option ℕ → ℕ → Decision
decided row label comments acting_user acting_delegation exception now = record row {
  decision = label;
  comments = comments;
  decided_on = some now;
  acted_by = some acting_user;
  acting_delegation = acting_delegation;
  exception_authorisation = if is_some exception then exception else row.exception_authorisation;
}

unfoldable pub record_decision :
    Store → Decision → ℕ → Option ℕ → ℕ → Option ℕ → ℕ → ℕ → Result (Store × Decision)
record_decision store row label comments acting_user exception today now = do
  refuse_if (not (is_some exception) && not (is_turn store row)) (out_of_turn row)
  let resolution = resolution_of store row acting_user today
  refuse_if (not resolution.permitted) (not_permitted row)
  save store (decided row label comments acting_user resolution.delegation exception now)

-- The names of the open steps, in order.
unfoldable pub outstanding : Store → ℕ → ℕ → List ℕ
outstanding store subject_doctype subject_name =
    map (λ d. d.name)
      (sort_by (λ a b. leb a.step_sequence b.step_sequence)
        (filter
          (λ d.
            d.subject_doctype == subject_doctype && (d.subject_name == subject_name && d.open_flag))
          store.decisions))

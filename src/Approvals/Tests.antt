-- ===== src/Approvals/Tests.antt =====
-- A route of two steps decided in turn, and the theorems about it at these inputs.
use enterprise_management.Base.{
  ℕ, ◌≡◌, ◌↔◌, ◌⊎◌, refl, none, some, true, false, [], ◌∷◌, Memᴰ, ok, err, refused, is_some,
}
use enterprise_management.StateFlags.{
  Flags, StateRow, ByValue, is_open, is_affirmative, get_flag_map, in_application_order, set_flags,
  apply_value, apply_field, apply_fields, apply_state_flags,
}
use enterprise_management.Delegation.{
  Delegation, all_records, action_approve, resolve_actor, is_within_dates, covers_scope,
  is_candidate, is_live_for, find_delegations,
}
use enterprise_management.Approvals.{
  sequential, Decision, Store, validate, save, waiting_on, is_turn, record_decision, out_of_turn,
  not_permitted, decision_field, approval_decision,
}
use enterprise_management.Approvals.Turns.{IsAhead, Next, waiting_on_iff, never_blocks}
use enterprise_management.Approvals.Recording.{MayDecide, IsDue, record_decision-authorised}

abbrev pending_flags : Flags
pending_flags is_open = true
pending_flags _ = false

abbrev approved_flags : Flags
approved_flags is_affirmative = true
approved_flags _ = false

abbrev by_value : ByValue
by_value = (0, pending_flags) ∷ (1, approved_flags) ∷ []

abbrev row : ℕ → Flags → StateRow
row value flags = record { target_doctype = 1; state_field = 1; state_value = value; flags = flags }

abbrev first : Decision
first = record {
  name = 1;
  subject_doctype = 7;
  subject_name = 70;
  approval_step = 1;
  step_sequence = 1;
  mode = some sequential;
  required_role = none;
  assigned_to = 10;
  acting_delegation = none;
  acted_by = none;
  decision = 0;
  open_flag = true;
  review_flag = false;
  affirmative_flag = false;
  decided_on = none;
  comments = none;
  classification_at_decision = none;
  based_on_version = some 3;
  exception_authorisation = none;
  docstatus = 0;
  creation = 1;
}

abbrev second : Decision
second = record first {
  name = 2;
  approval_step = 2;
  step_sequence = 2;
  assigned_to = 11;
  creation = 2;
}

abbrev standing : Delegation
standing = record {
  name = 9;
  delegator = 10;
  delegate = 20;
  valid_from = none;
  valid_to = none;
  is_active = true;
  scope_type = all_records;
  scope_doctype = none;
  scope_record = none;
  delegated_actions = action_approve ∷ [];
}

abbrev store : Store
store = record {
  decisions = first ∷ second ∷ [];
  delegations = standing ∷ [];
  flag_rows = row 0 pending_flags ∷ row 1 approved_flags ∷ [];
  workflow_field = none;
}

abbrev approved : Decision
approved = record first {
  acting_delegation = some 9;
  acted_by = some 20;
  decision = 1;
  open_flag = false;
  affirmative_flag = true;
  decided_on = some 100;
}

program : Unit {0}
unfolding validate save waiting_on is_turn record_decision is_within_dates covers_scope is_candidate
    is_live_for find_delegations resolve_actor get_flag_map in_application_order set_flags
    apply_value apply_field apply_fields apply_state_flags
program = tt

early : record_decision store second 1 none 11 none 50 100 ≡ err (refused (out_of_turn second))
unfolding program
early = refl

unauthorised :
    record_decision store first 1 none 11 none 50 100 ≡ err (refused (not_permitted first))
unfolding program
unauthorised = refl

by_delegate :
    record_decision store first 1 none 20 none 50 100
    ≡ ok (record store { decisions = approved ∷ second ∷ [] }, approved)
unfolding program
by_delegate = refl

mapped : get_flag_map store.flag_rows approval_decision ≡ (decision_field, by_value) ∷ []
unfolding program
mapped = refl

waiting_on_iff_example :
    Memᴰ first (waiting_on store second) ↔ (Memᴰ first store.decisions × IsAhead second first)
waiting_on_iff_example = waiting_on_iff store second first refl

never_blocks_example : (r : Decision) × Next store second r
never_blocks_example = never_blocks store second (Memᴰ.tail (Memᴰ.head refl)) refl

record_decision-authorised_example :
    ((is_some {A = ℕ} none ≡ true) ⊎ IsDue store first) × MayDecide store first 20 50
record_decision-authorised_example =
    record_decision-authorised store first 1 none 20 none 50 100 by_delegate

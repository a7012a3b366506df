-- ===== src/Base/Results.antt =====
-- Errors as values: what an operation returns, and how it fails.
use mathlib.Core.Path.{◌≡◌, refl}
use mathlib.Core.Bool.{Bool, true, false}
use mathlib.Core.Option.{Option, none, some}
use Prim.Native.Nat.{ℕ}

-- `attempted_action` of a refusal.
pub data Attempt : Type 0 where
  modify delete dispose create revert other approve_disposition : Attempt

-- The `control` that a refusal names.
pub data Control : Type 0 where
  motion_outcome_recorded entitlement_as_at_decision_date voting_entitlement_record : Control
  recorded_decision_immutability voting_entitlement motion_secretary quorum : Control
  sequential_approval_order delegation retention legal_hold disposition_approval : Control
  revert_justification version_append_only classification_override transition_rule : Control
  membership_history permanent_class four_eyes escalation_action_role escalation_queue : Control
  independent_challenge : Control

-- A row for the refusal log, written by `audit.refuse` before it raises.
pub record Refusal : Type 0 where
  pub subject_doctype : ℕ
  pub subject_name : ℕ
  pub attempted_action : Attempt
  pub control : Control
  pub retention_class : Option ℕ
  pub legal_hold : Option ℕ

-- The messages of a plain `frappe.throw`.
pub data Message : Type 0 where
  different_people ends_before_start scope_doctype_missing scope_record_missing : Message
  no_actions state_flags_not_configured motion_closed outcome_already_recorded : Message
  motion_missing seat_missing wrong_forum not_entitled delegate_may_not_vote : Message
  delegation_not_in_force wrong_delegate wrong_voter unknown_ballot unknown_outcome : Message
  forum_inactive motion_incomplete duplicate_entitlement record_missing : Message
  position_required member_required own_delegate delegate_without_vote duplicate_seat : Message
  chair_already_seated seat_cap_reached already_current no_chain wrong_subject : Message
  no_change_summary rule_condition unknown_question answer_required invalid_answer : Message
  rule_set_inactive unroutable_condition duplicate_destination inactive_forum : Message
  unknown_state not_a_starting_state not_a_move routed_by_the_matrix unknown_forum : Message
  unknown_role released_before_placed no_assignee no_permission not_a_number wrong_template
        required_by_template :
      Message
  unknown_entity_kind dates_out_of_order outcome_required template_incomplete : Message
  external_reference_required closure_criteria not_at_this_stage no_closure not_a_closure : Message
  already_taken not_available : Message
  hours_end_before_start threshold_not_a_percentage target_not_positive : Message
  no_named_approver already_decided already_approved decision_required : Message
  reason_required date_in_the_past review_date_required no_proposal nothing_to_execute : Message
  state_not_configured unknown_state_field change_tracking_required : Message

-- The exceptions of the language itself that the code does not catch.
pub data Exception : Type 0 where
  type_error overflow_error : Exception

pub data Fault : Type 0 where
  refused : Refusal → Fault
  thrown : Message → Fault
  raised : Exception → Fault

-- A step of the program gives a value, or raises a fault that ends the transaction.
pub data Result {ℓ} (Value : Type ℓ) : Type ℓ where
  err : Fault → Result Value
  ok : Value → Result Value

infixl 5 ◌>>◌
module _ {ℓ κ} {Before : Type ℓ} {After : Type κ} where
  infixl 5 ◌>>=◌
  abbrev pub ◌>>=◌ : Result Before → (Before → Result After) → Result After
  err fault >>= next = err fault
  ok value >>= next = next value

  -- A successful bind has a successful first step, and the second step succeeds on its value.
  pub >>=-eq-ok :
      (first : Result Before) (next : Before → Result After) {result : After}
      → (first >>= next) ≡ ok result
      → (value : Before) × (first ≡ ok value) × (next value ≡ ok result)
  >>=-eq-ok (err fault) next h = cc
  >>=-eq-ok (ok value) next h = (value, refl, h)

-- The rest of a block after a check.
abbrev pub ◌>>◌ {κ} : {After : Type κ} → Result (Unit {0}) → Result After → Result After
err fault >> rest = err fault
ok passed >> rest = rest

-- The value, or the fault where there is none.
abbrev pub demand {ℓ} : {A : Type ℓ} → Option A → Fault → Result A
demand none fault = err fault
demand (some a) fault = ok a

-- `if test: frappe.throw(message)`.
abbrev pub throw_if : Bool → Message → Result (Unit {0})
throw_if true m = err (thrown m)
throw_if false m = ok tt

abbrev pub refuse_if : Bool → Refusal → Result (Unit {0})
refuse_if true r = err (refused r)
refuse_if false r = ok tt

-- A guarded block that succeeds has passed its guard.
module _ {ℓ} {B : Type ℓ} where
  pub refuse_if-eq-ok :
      (t : Bool) (r : Refusal) (k : Result B) {b : B}
      → (refuse_if t r >> k) ≡ ok b
      → (t ≡ false) × (k ≡ ok b)
  refuse_if-eq-ok true r k h = cc
  refuse_if-eq-ok false r k h = (refl, h)

  pub throw_if-eq-ok :
      (t : Bool) (m : Message) (k : Result B) {b : B}
      → (throw_if t m >> k) ≡ ok b
      → (t ≡ false) × (k ≡ ok b)
  throw_if-eq-ok true m k h = cc
  throw_if-eq-ok false m k h = (refl, h)

pub demand-eq-ok {ℓ} :
    {A : Type ℓ} (o : Option A) (fault : Fault) {a : A} → demand o fault ≡ ok a → o ≡ some a
demand-eq-ok none fault h = cc
demand-eq-ok (some b) fault h = cc

pub >>-eq-ok {ℓ} :
    {B : Type ℓ} (m : Result (Unit {0})) (k : Result B) {b : B}
    → (m >> k) ≡ ok b
    → (m ≡ ok tt) × (k ≡ ok b)
>>-eq-ok (ok a) k h = (refl, h)
>>-eq-ok (err e) k h = cc

pub ok-injective {ℓ} : {A : Type ℓ} {a b : A} → ok a ≡ ok b → a ≡ b
ok-injective h = cc

pub some-injective {ℓ} : {A : Type ℓ} {a b : A} → some a ≡ some b → a ≡ b
some-injective h = cc

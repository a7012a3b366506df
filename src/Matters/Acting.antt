-- ===== src/Matters/Acting.antt =====
-- escalation/resolution.py, escalation/routing.py and escalation/assignment.py: what a person does
-- to a matter from its page. The payload that each action returns is left out.
pub mod Allowed
pub mod Steps
pub mod Ownership
pub mod Closing
use mathlib.Core.Option
use enterprise_management.Base.{
  ℕ, Option, none, some, Bool, true, false, not, ◌&&◌, ◌||◌, List, [], ◌∷◌, if◌then◌else◌, ◌==◌,
  same, is_some, any, contains, filter, write, Result, ok, demand, thrown, throw_if, refuse_if,
  Refusal, other, escalation_action_role, escalation_queue, transition_rule, not_available,
  not_at_this_stage, not_a_move, no_closure, not_a_closure, already_taken, record_missing, ◌>>=◌,
  ◌>>◌,
}
use enterprise_management.StateFlags.{
  Flags, is_open, requires_review, is_committable, get_flag_map, flags_for,
}
use enterprise_management.Escalation.{superuser_roles, permits}
use enterprise_management.Matters.{EscalationMatter, matter_doctype, status_field}
use enterprise_management.Matters.Site.{Site, Session, may_read, may_write}
use enterprise_management.Matters.Queue.{in_queue, is_waiting}
use enterprise_management.Matters.Saving.{
  World, Closure, closure_of, matter_of, validate_closure_record, matter_named, move_view, save,
}

-- ACTION_ROLES, with `take_ownership` as `ownership`.
pub data Action : Type 0 where
  move_status add_action_plan update_action_plan add_risk_acceptance request_approval : Action
  decide_approval record_review record_closure close change_pathway ownership : Action

pub data Stage : Type 0 where
  at_rest working in_review : Stage

-- OWNER and REVIEWER
abbrev pub owner_role : ℕ
owner_role = 71

abbrev pub reviewer_role : ℕ
reviewer_role = 72

abbrev pub move_roles : Stage → List ℕ
move_roles at_rest = []
move_roles working = owner_role ∷ []
move_roles in_review = reviewer_role ∷ []

-- STAGE_ACTIONS
abbrev pub offers : Stage → Action → Bool
offers at_rest _ = false
offers working record_review = false
offers working _ = true
offers in_review move_status = true
offers in_review record_review = true
offers in_review update_action_plan = true
offers in_review decide_approval = true
offers in_review ownership = true
offers in_review _ = false

unfoldable pub stage_of : EscalationMatter → Stage
stage_of m =
    if not (m.flags is_open)
    then at_rest
    else if m.flags requires_review
    then in_review
    else working

abbrev pub action_roles : Stage → Action → List ℕ
action_roles stage move_status = move_roles stage
action_roles stage record_review = reviewer_role ∷ []
action_roles stage decide_approval = []
action_roles stage _ = owner_role ∷ []

unfoldable pub roles_for : EscalationMatter → Action → List ℕ
unfolding stage_of
roles_for m a = action_roles (stage_of m) a

-- INDEPENDENT_ACTIONS
abbrev pub is_independent : Action → Bool
is_independent record_review = true
is_independent _ = false

abbrev pub is_accountable : EscalationMatter → ℕ → Bool
is_accountable m user =
    same m.accountable_executive (some user) || same m.response_owner (some user)

abbrev pub holds_any : List ℕ → List ℕ → Bool
holds_any held roles = any (contains held) roles || any (contains held) superuser_roles

module _ (site : Site) where
  unfoldable pub may_take : EscalationMatter → Action → ℕ → Bool
  unfolding roles_for
  may_take m a user =
      not (is_independent a && is_accountable m user)
      && holds_any (site.get_roles user) (roles_for m a)
      && site.has_permission user may_write m

  abbrev pub action_refusal : EscalationMatter → Refusal
  action_refusal m = record {
    subject_doctype = matter_doctype;
    subject_name = m.name;
    attempted_action = other;
    control = escalation_action_role;
    retention_class = none;
    legal_hold = none;
  }

  unfoldable pub authorise : EscalationMatter → Action → ℕ → Result (Unit {0})
  unfolding may_take stage_of
  authorise m a user = do
    refuse_if (not (may_take m a user)) (action_refusal m)
    throw_if (not (offers (stage_of m) a)) not_at_this_stage

  -- `load_matter(name, "write")`
  unfoldable pub load_matter : World → ℕ → ℕ → Result EscalationMatter
  load_matter w name user = do
    m ← demand (matter_named w name) (thrown not_available)
    throw_if (not (site.has_permission user may_read m)) not_available
    throw_if (not (site.has_permission user may_write m)) not_available
    ok m

  abbrev pub status_flags : ℕ → Option Flags
  status_flags status =
      flags_for (get_flag_map site.timing.flag_rows matter_doctype) status_field status

  abbrev pub is_open_state : Option Flags → Bool
  is_open_state none = false
  is_open_state (some flags) = flags is_open

  abbrev pub is_rest_state : Option Flags → Bool
  is_rest_state none = false
  is_rest_state (some flags) = not (flags is_open)

  abbrev pub commits : Option Flags → Bool
  commits none = false
  commits (some flags) = flags is_committable

  unfoldable pub open_states : EscalationMatter → List ℕ
  open_states m =
      filter (λ s. is_open_state (status_flags s) && not (s == m.status)) site.status_options

  unfoldable pub closing_states : List ℕ
  closing_states = filter (λ s. is_rest_state (status_flags s)) site.status_options

  abbrev pub allows : EscalationMatter → ℕ → ℕ → Bool
  allows m status user =
      permits site.transition_rules (move_view m) status (site.get_roles user) none

  -- `status_targets`
  unfoldable pub status_targets : EscalationMatter → ℕ → List ℕ
  unfolding open_states
  status_targets m user = filter (λ s. allows m s user) (open_states m)

  abbrev pub refuse_move : EscalationMatter → Refusal
  refuse_move m = record {
    subject_doctype = matter_doctype;
    subject_name = m.name;
    attempted_action = other;
    control = transition_rule;
    retention_class = none;
    legal_hold = none;
  }

  unfoldable pub move_matter_status : World → Session → ℕ → ℕ → Result (World × EscalationMatter)
  unfolding load_matter authorise open_states
  move_matter_status w by name status = do
    m ← load_matter w name by.user
    authorise m move_status by.user
    throw_if (not (contains (open_states m) status)) not_a_move
    refuse_if (not (allows m status by.user)) (refuse_move m)
    save site w by true (record m { status = status })

  abbrev pub closing : EscalationMatter → Closure → ℕ → Bool → EscalationMatter
  closing m c status completed = record m {
    status = status;
    response_template_completed = completed || m.response_template_completed;
    external_reference =
        if commits (status_flags status) && not (is_some m.external_reference)
        then c.external_reference
        else m.external_reference;
  }

  abbrev pub inherited_sensitivity : Option EscalationMatter → Bool
  inherited_sensitivity none = false
  inherited_sensitivity (some m) = m.sensitive

  -- `closure.save()`, with the controller's `validate`.
  unfoldable pub save_closure : World → Closure → Result World
  unfolding validate_closure_record
  save_closure w c = do
    let c' : Closure = record c {
      sensitive = inherited_sensitivity (matter_named w c.escalation_matter);
    }
    validate_closure_record c'
    ok (record w { closures = write matter_of c' w.closures })

  -- A closure as its approval saves it.
  abbrev pub approved_closure : World → Closure → Session → Closure
  approved_closure w c by = record c {
    approved_by = some by.user;
    approved_on = some by.now;
    sensitive = inherited_sensitivity (matter_named w c.escalation_matter);
  }

  abbrev pub approve : World → Closure → Session → Result World
  approve w c by =
      if is_some c.approved_by
      then ok w
      else save_closure w (record c { approved_by = some by.user; approved_on = some by.now })

  -- `close_matter`; `completed` is the answer on the response template.
  unfoldable pub close_matter : World → Session → ℕ → ℕ → Bool → Result (World × EscalationMatter)
  unfolding load_matter authorise closing_states save_closure
  close_matter w by name status completed = do
    m ← load_matter w name by.user
    authorise m close by.user
    throw_if (not (contains closing_states status)) not_a_closure
    refuse_if (not (allows m status by.user)) (refuse_move m)
    c ← demand (closure_of w.closures m.name) (thrown no_closure)
    (w', m') ← save site w by true (closing m c status completed)
    w'' ← approve w' c by
    ok (w'', m')

  abbrev pub queue_refusal : EscalationMatter → Refusal
  queue_refusal m = record {
    subject_doctype = matter_doctype;
    subject_name = m.name;
    attempted_action = other;
    control = escalation_queue;
    retention_class = none;
    legal_hold = none;
  }

  -- The part of `take_ownership` before the row lock, on the matter as it was first read.
  unfoldable pub ask_ownership : World → Session → ℕ → Result (Unit {0})
  unfolding load_matter authorise
  ask_ownership w by name = do
    m ← load_matter w name by.user
    authorise m ownership by.user
    refuse_if (not (in_queue site m by.user)) (queue_refusal m)

  -- The part under the row lock, on the matter as it is then.
  unfoldable pub settle_ownership : World → Session → ℕ → Result (World × EscalationMatter)
  settle_ownership w by name = do
    m ← demand (matter_named w name) (thrown record_missing)
    throw_if (not (is_waiting site m)) already_taken
    save site w by true
        (record m { response_owner = some by.user; ownership_taken_on = some by.now })

  unfoldable pub take_ownership : World → Session → ℕ → Result (World × EscalationMatter)
  unfolding ask_ownership settle_ownership
  take_ownership w by name = do ask_ownership w by name; settle_ownership w by name

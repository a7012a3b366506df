-- ===== src/Matters.antt =====
-- The Escalation module: a matter, its columns and flags. Matters/Matrix and Matters/Pathway are
-- escalation/routing.py, Matters/Queue is escalation/assignment.py, Matters/Template is
-- escalation/templates.py; Matters/Saving is the controller with the closure and the clock of
-- escalation/resolution.py, Matters/Acting its portal actions and Matters/Breach its sweep.
pub mod Matrix
pub mod Template
pub mod Site
pub mod Queue
pub mod Pathway
pub mod Notices
pub mod Saving
pub mod Acting
pub mod Rerouting
pub mod Breach
pub mod Runs
mod Tests
use enterprise_management.Base.{
  ◌||◌, get, ℕ, ◌≡◌, Option, none, some, Bool, true, false, List, [], ◌∷◌, ◌++◌, if◌then◌else◌,
  ◌==◌, length, arith,
}
use enterprise_management.StateFlags.{
  Flag, Flags, is_affirmative, flag_eq, Stateful, workflow_state,
}

-- An Escalation Forum Link: a row of the pathway.
pub record ForumLink : Type 0 where
  pub governance_forum : ℕ
  pub role_in_escalation : ℕ
  pub escalation_protocol : Option ℕ
  pub escalation_threshold : Option ℕ
  pub proposed_by_rule : Option ℕ
  pub notified_on : Option ℕ
  pub decision_motion : Option ℕ

-- An Escalation Impacted Entity.
pub record ImpactedEntity : Type 0 where
  pub entity_type : ℕ
  pub entity_doctype : Option ℕ
  pub entity_value : ℕ

-- An Escalation Review.
pub record ReviewRound : Type 0 where
  pub round : ℕ
  pub reviewer : ℕ
  pub review_line : Option ℕ
  pub received_on : Option ℕ
  pub responded_on : Option ℕ
  pub outcome : Option ℕ
  pub comments : Option ℕ
  pub sla_clock : Option ℕ

-- An Escalation Matter. Texts, links, days and times are numbers; `texts` holds the columns that
-- only a template reads, by their fieldname; `severity_override` is a `severity_source` of
-- "Manual Override".
pub record EscalationMatter : Type 0 where
  pub name : ℕ
  pub escalation_id : Option ℕ
  pub escalation_type : Option ℕ
  pub escalation_template : Option ℕ
  pub escalation_identification_date : ℕ
  pub escalation_date : Option ℕ
  pub tier_1_risk_type : Option ℕ
  pub tier_2_risk_type : Option ℕ
  pub impacted_entities : List ImpactedEntity
  pub identified_by : Option ℕ
  pub organizational_level : Option ℕ
  pub accountable_executive : Option ℕ
  pub response_owner : Option ℕ
  pub severity : Option ℕ
  pub severity_override : Bool
  pub escalation_matrix : Option ℕ
  pub matched_matrix_rule : Option ℕ
  pub assigned_role : Option ℕ
  pub assigned_group : Option ℕ
  pub assignment_rule : Option ℕ
  pub ownership_taken_on : Option ℕ
  pub governance_forums : List ForumLink
  pub material_entity_impact : Bool
  pub risk_appetite_breach : Bool
  pub systemic : Bool
  pub sensitive : Bool
  pub status : ℕ
  pub workflow_label : Option ℕ
  pub flags : Flags
  pub external_reference : Option ℕ
  pub opened_on : Option ℕ
  pub closed_on : Option ℕ
  pub response_template_completed : Bool
  pub sla_definition : Option ℕ
  pub sla_clock : Option ℕ
  pub threshold_breached : Bool
  pub breach_count : ℕ
  pub last_breach_on : Option ℕ
  pub auto_escalated : Bool
  pub reviews : List ReviewRound
  pub texts : List (ℕ × ℕ)

-- MATTER, and the number of its field `status`.
abbrev pub matter_doctype : ℕ
matter_doctype = 22

abbrev pub status_field : ℕ
status_field = 20

abbrev pub declares : Flag → Bool
declares is_affirmative = false
declares _ = true

abbrev pub state_value : EscalationMatter → ℕ → Option ℕ
state_value m field =
    if field == status_field
    then some m.status
    else if field == workflow_state
    then m.workflow_label
    else none

abbrev pub flag_of : EscalationMatter → Flag → Bool
flag_of m f = m.flags f

abbrev pub set_flag : EscalationMatter → Flag → Bool → EscalationMatter
set_flag m f b = record m { flags = λ g. if flag_eq f g then b else m.flags g }

pub value-set_flag :
    (m : EscalationMatter) (f : Flag) (b : Bool) (field : ℕ)
    → state_value (set_flag m f b) field ≡ state_value m field
value-set_flag m f b field = ground arith

pub flag-set_flag :
    (m : EscalationMatter) (f g : Flag) (b : Bool)
    → declares f ≡ true
    → flag_of (set_flag m f b) g ≡ (if flag_eq f g then b else flag_of m g)
flag-set_flag m f g b h = ground arith

abbrev pub matter_doc : Stateful EscalationMatter
matter_doc = record {
  has_field = λ field. field == status_field || field == workflow_state;
  has_flag = declares;
  value = state_value;
  flag = flag_of;
  set = set_flag;
  value-set = value-set_flag;
  flag-set = flag-set_flag;
}

-- What `matter.get(fieldname)` gives; 0 is the empty text.
pub data Value : Type 0 where
  nothing : Value
  text : ℕ → Value
  check : Bool → Value
  rows : ℕ → Value

abbrev link : Option ℕ → Value
link none = nothing
link (some v) = text v

-- The columns by fieldname, first those of CONDITION_FIELDS in their order.
abbrev columns : EscalationMatter → List (ℕ × Value)
columns m =
    (1, link m.escalation_type)
    ∷ (2, link m.tier_1_risk_type)
    ∷ (3, link m.tier_2_risk_type)
    ∷ (4, link m.organizational_level)
    ∷ (5, check m.material_entity_impact)
    ∷ (6, check m.risk_appetite_breach)
    ∷ (7, check m.systemic)
    ∷ (8, link m.severity)
    ∷ (9, rows (length m.impacted_entities))
    ∷ (10, link m.identified_by)
    ∷ (11, link m.accountable_executive)
    ∷ (12, link m.response_owner)
    ∷ (13, rows (length m.governance_forums))
    ∷ (14, link m.external_reference)
    ∷ (15, check m.response_template_completed)
    ∷ (16, text m.escalation_identification_date)
    ∷ (17, link m.escalation_date)
    ∷ []

abbrev pub value_or : Option Value → Option ℕ → Value
value_or none v = link v
value_or (some v) _ = v

unfoldable pub value_of : EscalationMatter → ℕ → Value
value_of m field = value_or (get field (columns m)) (get field m.texts)

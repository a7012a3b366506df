-- ===== src/Matters/Tests/Sample.antt =====
-- A small site with one matter, and the worlds that the actions on it leave.
use enterprise_management.Base.{
  ℕ, ◌+◌, none, some, true, false, ◌||◌, List, [], ◌∷◌, if◌then◌else◌, ◌==◌, pos,
}
use enterprise_management.StateFlags.{
  Flags, StateRow, ByValue, is_open, is_editable, is_active, requires_review, is_committable,
  requires_statement, flag_eq,
}
use enterprise_management.Clocks
use enterprise_management.Clocks.{Clock, Definition, total_open_time, round_the_clock}
use enterprise_management.Matters.{
  EscalationMatter, ForumLink, set_flag, matter_doctype, status_field,
}
use enterprise_management.Matters.Matrix.{Matrix, MatrixRule, truth}
use enterprise_management.Matters.Template.{Template, medium, high, scope_escalation}
use enterprise_management.Matters.Site.{Site, Session, ForumRow}
use enterprise_management.Matters.Saving.{World, Closure, matter_breached}
use enterprise_management.Matters.Rerouting.{Wanted}

abbrev pub worked : Flags
worked f = flag_eq f is_open || flag_eq f is_editable

abbrev reviewed : Flags
reviewed f = flag_eq f is_open || flag_eq f requires_review

abbrev ended : Flags
ended f = flag_eq f requires_statement

abbrev open_clock : Flags
open_clock f = flag_eq f is_open

abbrev no_flags : Flags
no_flags f = false

abbrev row : ℕ → ℕ → Flags → StateRow
row doctype value flags = record {
  target_doctype = doctype;
  state_field = status_field;
  state_value = value;
  flags = flags;
}

abbrev flag_rows : List StateRow
flag_rows =
    row matter_doctype 1 worked
    ∷ row matter_doctype 2 reviewed
    ∷ row matter_doctype 3 ended
    ∷ row Clocks.sla_clock Clocks.running open_clock
    ∷ row Clocks.sla_clock Clocks.met no_flags
    ∷ row Clocks.sla_clock Clocks.breached no_flags
    ∷ []

abbrev pub by_value : ByValue
by_value = (1, worked) ∷ (2, reviewed) ∷ (3, ended) ∷ []

abbrev total_time : Definition
total_time = record {
  name = 5;
  target_doctype = matter_doctype;
  applies_when = none;
  measure = total_open_time;
  state_field = none;
  state_value = none;
  target_hours = 3000000;
  warning_threshold_pct = 80;
  calendar = round_the_clock;
  business_calendar = none;
  creation = 0;
  active = true;
}

-- A systemic matter goes to forum 1; any other to forum 2 and the queue of role 71.
abbrev systemic_rule : MatrixRule
systemic_rule = record {
  rule_code = 801;
  priority = 10;
  condition = (7, truth true) ∷ [];
  resulting_severity = some high;
  route_to_role = some 72;
  route_to_group = none;
  sla_definition = some 5;
  active = true;
}

abbrev pub general_rule : MatrixRule
general_rule = record {
  rule_code = 802;
  priority = 20;
  condition = [];
  resulting_severity = some medium;
  route_to_role = some 71;
  route_to_group = none;
  sla_definition = some 5;
  active = true;
}

abbrev pub matrix : Matrix
matrix = record {
  name = 800;
  scope_risk_types = [];
  scope_legal_entities = [];
  effective_from = 1;
  effective_to = none;
  active = true;
  rules = general_rule ∷ systemic_rule ∷ [];
  routes =
      record { rule_code = 801; governance_forum = 1; role_in_escalation = none }
      ∷ record { rule_code = 802; governance_forum = 2; role_in_escalation = none }
      ∷ [];
  rule_notifications = [];
}

abbrev forum : ℕ → ForumRow
forum n = record {
  name = n;
  escalation_protocol = some 90;
  escalation_threshold = none;
  active = true;
}

abbrev pub template : Template
template = record {
  name = 9;
  escalation_type = 4;
  template_scope = scope_escalation;
  active = true;
  template_fields =
      record { fieldname = 11; required = true; required_when_severity = none; display_order = 1 }
      ∷ [];
}

-- 203 and 204 are owners, 202 a reviewer.
abbrev roles_of : ℕ → List ℕ
roles_of user = if user == 202 then 72 ∷ [] else if user == 203 || user == 204 then 71 ∷ [] else []

abbrev next_name : List Clock → ℕ
next_name [] = 300
next_name (c ∷ clocks) = c.name + 1

abbrev timing : Clocks.Site
timing = record {
  definitions = total_time ∷ [];
  calendars = λ n. none;
  flag_rows = flag_rows;
  workflow_field = none;
  share = λ span pct. span;
  fresh = next_name;
  satisfies = λ filters name. true;
  handled = λ name. none;
}

abbrev pub site : Site
site = record {
  matrices = matrix ∷ [];
  templates = template ∷ [];
  transition_rules = [];
  governance = some (record {
    forums = forum 1 ∷ forum 2 ∷ forum 3 ∷ [];
    register = record { forums = []; seats = []; roles = [] };
  });
  directory = record { enabled = []; role_rows = []; group_rows = [] };
  get_roles = roles_of;
  has_permission = λ user permission m. true;
  int_of = λ t. none;
  status_options = 1 ∷ 2 ∷ 3 ∷ [];
  workflow_field = none;
  timing = timing;
}

abbrev link : ℕ → ForumLink
link n = record {
  governance_forum = n;
  role_in_escalation = 1;
  escalation_protocol = some 90;
  escalation_threshold = none;
  proposed_by_rule = some 802;
  notified_on = none;
  decision_motion = none;
}

abbrev pub matter : EscalationMatter
matter = record {
  name = 1;
  escalation_id = some 1;
  escalation_type = some 6;
  escalation_template = none;
  escalation_identification_date = 10;
  escalation_date = some 12;
  tier_1_risk_type = some 500;
  tier_2_risk_type = none;
  impacted_entities = [];
  identified_by = some 210;
  organizational_level = some 3;
  accountable_executive = some 211;
  response_owner = none;
  severity = some medium;
  sensitive = false;
  severity_override = false;
  escalation_matrix = some 800;
  matched_matrix_rule = some 802;
  assigned_role = some 71;
  assigned_group = none;
  assignment_rule = some 802;
  ownership_taken_on = none;
  governance_forums = link 2 ∷ [];
  material_entity_impact = false;
  risk_appetite_breach = false;
  systemic = false;
  status = 1;
  workflow_label = none;
  flags = worked;
  external_reference = none;
  opened_on = some 1000;
  closed_on = none;
  response_template_completed = false;
  sla_definition = some 5;
  sla_clock = some 301;
  threshold_breached = false;
  breach_count = 0;
  last_breach_on = none;
  auto_escalated = false;
  reviews = [];
  texts = [];
}

abbrev clock : Clock
clock = record {
  name = 301;
  sla_definition = 5;
  subject_doctype = matter_doctype;
  subject_name = 1;
  started_on = 1000;
  target_on = 3001000;
  stopped_on = none;
  paused_seconds = 0;
  elapsed_seconds = pos 0;
  status = Clocks.running;
  open_flag = true;
  breached_on = none;
  warning_sent_on = none;
}

abbrev pub closure : Closure
closure = record {
  escalation_matter = 1;
  closure_type = 1;
  closure_summary = some 77;
  criteria_met = [];
  external_reference = none;
  sensitive = false;
  approved_by = none;
  approved_on = none;
}

abbrev pub world : World
world = record {
  matters = matter ∷ [];
  closures = closure ∷ [];
  dependents = [];
  clocks = record { clocks = clock ∷ []; notices = [] };
  notices = [];
}

abbrev pub session : ℕ → Session
session user = record { user = user; now = 2000; today = 15 }

-- A matter with the flags of a state, as a save sets them.
abbrev pub flagged : Flags → EscalationMatter → EscalationMatter
flagged flags m =
    set_flag
      (set_flag
        (set_flag
          (set_flag
            (set_flag (set_flag m is_editable (flags is_editable)) is_active (flags is_active))
            requires_review (flags requires_review))
          is_open (flags is_open))
        is_committable (flags is_committable))
      requires_statement (flags requires_statement)

abbrev pub taken_matter : EscalationMatter
taken_matter =
    flagged worked (record matter { response_owner = some 203; ownership_taken_on = some 2000 })

abbrev pub taken_world : World
taken_world = record world { matters = taken_matter ∷ [] }

abbrev pub moved_matter : EscalationMatter
moved_matter = flagged reviewed (record matter { status = 2 })

abbrev pub closed_matter : EscalationMatter
closed_matter =
    flagged ended
      (record matter { status = 3; response_template_completed = true; closed_on = some 2000 })

abbrev stopped_clock : Clock
stopped_clock = record clock { stopped_on = some 2000; status = Clocks.met; open_flag = false }

abbrev pub closed_world : World
closed_world = record world {
  matters = closed_matter ∷ [];
  closures = record closure { approved_by = some 203; approved_on = some 2000 } ∷ [];
  clocks = record { clocks = stopped_clock ∷ []; notices = [] };
}

abbrev pub rerouted_matter : EscalationMatter
rerouted_matter = flagged worked (record matter {
  governance_forums =
      (let r = link 2 in record r { role_in_escalation = 2 })
      ∷ (let r = link 3 in record r { proposed_by_rule = none })
      ∷ [];
})

abbrev pub wanted : List Wanted
wanted =
    record { governance_forum = some 2; role_in_escalation = some 2 }
    ∷ record { governance_forum = some 3; role_in_escalation = none }
    ∷ []

-- The clock of the matter has breached.
abbrev pub late_clock : Clock
late_clock = record clock { status = Clocks.breached; open_flag = false; breached_on = some 5000 }

abbrev pub late_world : World
late_world = record world { clocks = record { clocks = late_clock ∷ []; notices = [] } }

abbrev raised_matter : EscalationMatter
raised_matter = flagged worked (record matter {
  severity = some high;
  threshold_breached = true;
  breach_count = 1;
  last_breach_on = some 5000;
  auto_escalated = true;
})

abbrev pub raised_world : World
raised_world = record late_world {
  matters = raised_matter ∷ [];
  notices = matter_breached 1 (211 ∷ 210 ∷ []) ∷ [];
}

-- The matter becomes sensitive, with its closure and its action plan.
abbrev pub sensitive_matter : EscalationMatter
sensitive_matter = record matter { sensitive = true }

abbrev pub with_plan : World
with_plan = record world {
  dependents = record { name = 41; escalation_matter = 1; sensitive = false } ∷ [];
}

abbrev pub sensitive_world : World
sensitive_world = record with_plan {
  matters = flagged worked sensitive_matter ∷ [];
  closures = record closure { sensitive = true } ∷ [];
  dependents = record { name = 41; escalation_matter = 1; sensitive = true } ∷ [];
}

abbrev pub holding : World → EscalationMatter → World
holding w m = record w { matters = m ∷ [] }

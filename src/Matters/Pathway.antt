-- ===== src/Matters/Pathway.antt =====
-- escalation/routing.py: the severity and the pathway that the matrix gives a matter, the check of
-- a pathway, and the people that its forums bring in.
pub mod Rows
pub mod Severity
pub mod Stamped
use enterprise_management.Base.{
  ltb, read, ℕ, Option, none, some, Bool, true, false, not, ◌||◌, List, [], ◌∷◌, ◌++◌, map,
  if◌then◌else◌, ◌==◌, or_else, any, contains, filter, head?, Result, ok, throw_if,
  duplicate_destination, inactive_forum, ◌>>=◌, ◌>>◌,
}
use enterprise_management.Membership.{
  Seat, Register, RoleDefaults, members_as_at, role_defaults, delegate_active_on,
}
use enterprise_management.Matters.{EscalationMatter, ForumLink}
use enterprise_management.Matters.Matrix.{Destination, Match, match_rule}
use enterprise_management.Matters.Template.{low, medium, high}
use enterprise_management.Matters.Site.{Site, Governance, ForumRow}
use enterprise_management.Matters.Queue.{apply_assignment}

abbrev pub severity_order : List ℕ
severity_order = low ∷ medium ∷ high ∷ []

-- `SEVERITY_ORDER.index` of a known severity.
abbrev pub severity_index : ℕ → ℕ
severity_index s = if s == low then 0 else if s == medium then 1 else 2

abbrev pub given : List (Option ℕ) → List ℕ
given [] = []
given (none ∷ values) = given values
given (some s ∷ values) = s ∷ given values

-- `max` by the index, which keeps the first of those that are equal.
unfoldable pub most_severe : ℕ → List ℕ → ℕ
most_severe best [] = best
most_severe best (s ∷ values) =
    most_severe (if ltb (severity_index best) (severity_index s) then s else best) values

abbrev pub most_severe_of : List ℕ → Option ℕ → Option ℕ
most_severe_of [] otherwise = otherwise
most_severe_of (s ∷ values) otherwise = some (most_severe s values)

unfoldable pub highest : List (Option ℕ) → Option ℕ
unfolding most_severe
highest severities =
    most_severe_of (filter (contains severity_order) (given severities)) (head? (given severities))

-- `SEVERITY_ORDER[min(index + 1, len(SEVERITY_ORDER) - 1)]`
abbrev pub next_severity : ℕ → ℕ
next_severity s = if severity_index s == 0 then medium else high

unfoldable pub raised_severity : Option ℕ → Option ℕ
raised_severity none = none
raised_severity (some s) = if contains severity_order s then some (next_severity s) else some s

-- The columns of a forum, `is_active` missing where there is no such forum.
pub record Protocol : Type 0 where
  pub escalation_protocol : Option ℕ
  pub escalation_threshold : Option ℕ
  pub active : Option Bool

abbrev pub protocol_of : Option ForumRow → Protocol
protocol_of none = record { escalation_protocol = none; escalation_threshold = none; active = none }
protocol_of (some f) = record {
  escalation_protocol = f.escalation_protocol;
  escalation_threshold = f.escalation_threshold;
  active = some f.active;
}

abbrev pub forum_named : Option Governance → ℕ → Option ForumRow
forum_named none forum = none
forum_named (some g) forum = read (λ (f : ForumRow). f.name) forum g.forums

unfoldable pub forum_protocol : Option Governance → ℕ → Protocol
forum_protocol governance forum = protocol_of (forum_named governance forum)

unfoldable pub forum_is_selectable : Option Governance → ℕ → Bool
unfolding forum_protocol
forum_is_selectable governance forum = or_else (forum_protocol governance forum).active true

-- "Decision"
abbrev pub decision_role : ℕ
decision_role = 1

abbrev pub forum_of : ForumLink → ℕ
forum_of r = r.governance_forum

module _ (governance : Option Governance) where
  abbrev pub proposed_row : Destination → ℕ → ForumLink
  proposed_row d rule_code = record {
    governance_forum = d.governance_forum;
    role_in_escalation = or_else d.role_in_escalation decision_role;
    escalation_protocol = (forum_protocol governance d.governance_forum).escalation_protocol;
    escalation_threshold = (forum_protocol governance d.governance_forum).escalation_threshold;
    proposed_by_rule = some rule_code;
    notified_on = none;
    decision_motion = none;
  }

  unfoldable pub add_destinations : List ForumLink → List Destination → ℕ → List ForumLink
  add_destinations pathway [] rule_code = pathway
  add_destinations pathway (d ∷ forums) rule_code =
      add_destinations
        (if contains (map forum_of pathway) d.governance_forum
          then pathway
          else pathway ++ proposed_row d rule_code ∷ [])
        forums rule_code

  abbrev pub refreshed : ForumLink → ForumLink
  refreshed r = record r {
    escalation_protocol = (forum_protocol governance r.governance_forum).escalation_protocol;
    escalation_threshold = (forum_protocol governance r.governance_forum).escalation_threshold;
  }

  -- The loop of `validate_pathway`, which gives the rows as it leaves them.
  unfoldable pub check_rows : List ℕ → List ForumLink → Result (List ForumLink)
  check_rows seen [] = ok []
  check_rows seen (r ∷ pathway) = do
    throw_if (contains seen r.governance_forum) duplicate_destination
    throw_if (not (forum_is_selectable governance r.governance_forum)) inactive_forum
    rest ← check_rows (r.governance_forum ∷ seen) pathway
    ok (refreshed r ∷ rest)

  unfoldable pub validate_pathway : EscalationMatter → Result EscalationMatter
  unfolding check_rows
  validate_pathway m = do
    pathway ← check_rows [] m.governance_forums
    ok (record m { governance_forums = pathway })

abbrev pub routed_severity : EscalationMatter → Option ℕ → Option ℕ
routed_severity m none = m.severity
routed_severity m (some s) =
    if m.severity_override
    then m.severity
    else if m.auto_escalated
    then highest (m.severity ∷ some s ∷ [])
    else some s

abbrev pub first_of : Option ℕ → Option ℕ → Option ℕ
first_of none otherwise = otherwise
first_of (some v) otherwise = some v

-- `apply_routing`, from the match on.
unfoldable pub route : Option Governance → EscalationMatter → Match → EscalationMatter
unfolding apply_assignment add_destinations highest
route governance m found =
    apply_assignment
      (record m {
        escalation_matrix = some found.matrix;
        matched_matrix_rule = some found.rule_code;
        severity = routed_severity m found.severity;
        sla_definition = first_of found.sla_definition m.sla_definition;
        governance_forums =
            add_destinations governance m.governance_forums found.forums found.rule_code;
      })
      found

abbrev pub route_if : Option Governance → EscalationMatter → Option Match → EscalationMatter
route_if governance m none = m
route_if governance m (some found) = route governance m found

unfoldable pub apply_routing : Site → ℕ → EscalationMatter → Result EscalationMatter
unfolding route match_rule
apply_routing site today m = do
  found ← match_rule site.int_of site.matrices today m
  ok (route_if site.governance m found)

-- An entry of `forum_participants`.
pub record Participant : Type 0 where
  pub user : ℕ
  pub seat_role : ℕ
  pub holder : Bool

-- `found.setdefault(user, ...)`
abbrev pub set_default : List Participant → Participant → List Participant
set_default found p =
    if any (λ (q : Participant). q.user == p.user) found then found else found ++ p ∷ []

-- PARTICIPANT_FLAGS
abbrev pub is_participant_role : RoleDefaults → Bool
is_participant_role r = r.is_chair_role || r.is_secretary_role || r.can_attest

abbrev pub with_delegate : List Participant → Seat → Option ℕ → ℕ → List Participant
with_delegate found s none on_date = found
with_delegate found s (some delegate) on_date =
    if delegate_active_on s on_date
    then set_default found (record { user = delegate; seat_role = s.forum_role; holder = false })
    else found

abbrev pub with_holder : List Participant → Seat → Option ℕ → ℕ → List Participant
with_holder found s none on_date = found
with_holder found s (some member) on_date =
    with_delegate
      (set_default found (record { user = member; seat_role = s.forum_role; holder = true })) s
      s.delegate on_date

unfoldable pub gather : Register → List Participant → List Seat → ℕ → List Participant
gather register found [] on_date = found
gather register found (s ∷ seats) on_date =
    gather register
      (if is_participant_role (role_defaults register.roles s.forum_role)
        then with_holder found s s.member on_date
        else found)
      seats on_date

unfoldable pub forum_participants : Option Governance → ℕ → ℕ → List Participant
unfolding gather
forum_participants none forum on_date = []
forum_participants (some g) forum on_date =
    gather g.register [] (members_as_at g.register.seats forum on_date) on_date

-- `stamp_notified`: the rows of the forums that were reached.
unfoldable pub stamp_notified : EscalationMatter → List ℕ → ℕ → EscalationMatter
stamp_notified m reached now = record m {
  governance_forums =
      map (λ r. if contains reached (forum_of r) then record r { notified_on = some now } else r)
        m.governance_forums;
}

-- ===== src/Escalation.antt =====
-- escalation/transitions.py: the moves that an escalation matter may make, by type and severity.
pub mod Permitted
mod Tests
use enterprise_management.Base.{
  ℕ, ◌+◌, Option, none, some, Bool, true, false, not, ◌&&◌, ◌||◌, List, [], ◌∷◌, if◌then◌else◌,
  ◌==◌, leb, is_some, or_else, same, any, contains, filter, is_empty, Result, ok, err, refused,
  refuse_if, throw_if, Refusal, other, transition_rule, unknown_state, not_a_starting_state,
  not_a_move, ◌>>=◌, ◌>>◌,
}
use enterprise_management.StateFlags.{Flag, Flags, is_open, FlagMap, flags_for}

-- An Escalation Transition Rule; a missing column means any.
pub record Rule : Type 0 where
  pub name : ℕ
  pub escalation_type : Option ℕ
  pub severity : Option ℕ
  pub from_status : Option ℕ
  pub to_status : Option ℕ
  pub allowed_role : Option ℕ
  pub active : Bool

-- What is read of an Escalation Matter; its status is always set.
pub record Matter : Type 0 where
  pub name : ℕ
  pub escalation_type : Option ℕ
  pub severity : Option ℕ
  pub status : ℕ

unfoldable pub specificity : Rule → ℕ
specificity r = (if is_some r.escalation_type then 2 else 0) + (if is_some r.severity then 1 else 0)

-- `rules` is the table, in the order of the rule codes.
unfoldable pub active_rules : List Rule → List Rule
active_rules rules = filter (λ r. r.active) rules

-- `column in (None, "", value)`
abbrev pub allows : Option ℕ → Option ℕ → Bool
allows column value = not (is_some column) || same column value

abbrev pub is_matching : Matter → Rule → Bool
is_matching m r = allows r.escalation_type m.escalation_type && allows r.severity m.severity

abbrev pub greater : ℕ → ℕ → ℕ
greater a b = if leb a b then b else a

-- `max`, of a list that is not empty.
abbrev pub best_of : List Rule → ℕ
best_of [] = 0
best_of (r ∷ rules) = greater (specificity r) (best_of rules)

unfoldable pub applicable_rules : List Rule → Matter → List Rule
unfolding active_rules
applicable_rules rules m =
    let matching = filter (is_matching m) (active_rules rules) in
    filter (λ r. specificity r == best_of matching) matching

-- SUPERUSER_ROLES
abbrev pub superuser_roles : List ℕ
superuser_roles = 51 ∷ []

-- `_holds`, of a user with these roles.
abbrev pub holds_role : Option ℕ → List ℕ → Bool
holds_role none roles = true
holds_role (some role) roles = contains roles role || any (contains roles) superuser_roles

abbrev pub allows_move : ℕ → ℕ → Rule → Bool
allows_move before after r = allows r.from_status (some before) && allows r.to_status (some after)

unfoldable pub rules_for_move : List Rule → Matter → ℕ → ℕ → List Rule
unfolding applicable_rules
rules_for_move rules m before after = filter (allows_move before after) (applicable_rules rules m)

unfoldable pub is_configured : List Rule → Matter → Bool
unfolding applicable_rules
is_configured rules m = not (is_empty (applicable_rules rules m))

abbrev pub permits_among : List Rule → ℕ → ℕ → List ℕ → Bool
permits_among [] before after roles = true
permits_among (r ∷ rules) before after roles =
    any (λ r. allows_move before after r && holds_role r.allowed_role roles) (r ∷ rules)

-- `from_status` is the caller's, or the matter's own status.
unfoldable pub permits : List Rule → Matter → ℕ → List ℕ → Option ℕ → Bool
unfolding applicable_rules
permits rules m after roles from_status =
    permits_among (applicable_rules rules m) (or_else from_status m.status) after roles

abbrev pub names_unknown : Option ℕ → List ℕ → Bool
names_unknown none options = false
names_unknown (some state) options = not (contains options state)

abbrev pub is_worked : Option Flags → Bool
is_worked none = false
is_worked (some flags) = flags is_open

abbrev pub starts_at_rest : Option ℕ → ℕ → FlagMap → Bool
starts_at_rest none field mapping = false
starts_at_rest (some state) field mapping = not (is_worked (flags_for mapping field state))

-- `options` are the states of the matter's status field, and `mapping` its flags.
unfoldable pub validate_rule : List ℕ → ℕ → FlagMap → Rule → Result (Unit {0})
validate_rule options status_field mapping r = do
  throw_if (names_unknown r.from_status options) unknown_state
  throw_if (names_unknown r.to_status options) unknown_state
  throw_if (starts_at_rest r.from_status status_field mapping) not_a_starting_state
  throw_if (is_some r.from_status && is_some r.to_status && same r.from_status r.to_status)
      not_a_move

abbrev pub escalation_doctype : ℕ
escalation_doctype = 22

abbrev pub move_refusal : Matter → Refusal
move_refusal m = record {
  subject_doctype = escalation_doctype;
  subject_name = m.name;
  attempted_action = other;
  control = transition_rule;
  retention_class = none;
  legal_hold = none;
}

-- A save: whether the matter is new, whether the code asked for no permissions, and the status
-- before the save, where there was one.
pub record Save : Type 0 where
  pub is_new : Bool
  pub ignore_permissions : Bool
  pub before : Option ℕ

unfoldable pub validate_move : List Rule → Matter → Option ℕ → List ℕ → Result (Unit {0})
validate_move rules m none roles = ok tt
validate_move rules m (some before) roles =
    if before == m.status
    then ok tt
    else refuse_if (not (permits rules m m.status roles (some before))) (move_refusal m)

unfoldable pub validate_status_change : List Rule → Matter → Save → List ℕ → Result (Unit {0})
unfolding validate_move
validate_status_change rules m s roles =
    if s.is_new || s.ignore_permissions then ok tt else validate_move rules m s.before roles

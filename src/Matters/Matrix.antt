-- ===== src/Matters/Matrix.antt =====
-- escalation/routing.py: the escalation matrix, and the first rule of it that matches a matter.
pub mod First
use enterprise_management.Base.{
  ◌&&◌, ℕ, Option, none, some, Bool, true, false, not, ◌||◌, List, [], ◌∷◌, map, if◌then◌else◌,
  ◌==◌, ltb, leb, is_before, same, any, contains, filter, is_empty, sort_by, Result, ok, err,
  thrown, throw_if, unroutable_condition, not_a_number, ◌>>=◌, ◌>>◌, bool_eq,
}
use enterprise_management.Matters.{
  EscalationMatter, ImpactedEntity, Value, nothing, text, check, rows, value_of,
}

-- A JSON scalar in a list of a condition; `true` and `false` equal the numbers 1 and 0.
pub data Literal : Type 0 where
  null : Literal
  words : ℕ → Literal
  number : ℕ → Literal

-- What a condition expects of a field: one of a list, a truth value, or the text that `str` makes
-- of any other value.
pub data Expected : Type 0 where
  one_of : List Literal → Expected
  truth : Bool → Expected
  single : ℕ → Expected

abbrev pub Condition : Type 0
Condition = List (ℕ × Expected)

-- An Escalation Matrix Rule.
pub record MatrixRule : Type 0 where
  pub rule_code : ℕ
  pub priority : ℕ
  pub condition : Condition
  pub resulting_severity : Option ℕ
  pub route_to_role : Option ℕ
  pub route_to_group : Option ℕ
  pub sla_definition : Option ℕ
  pub active : Bool

-- An Escalation Matrix Route.
pub record MatrixRoute : Type 0 where
  pub rule_code : ℕ
  pub governance_forum : ℕ
  pub role_in_escalation : Option ℕ

-- An Escalation Matrix, its rules in the order of `idx`.
pub record Matrix : Type 0 where
  pub name : ℕ
  pub scope_risk_types : List ℕ
  pub scope_legal_entities : List ℕ
  pub effective_from : ℕ
  pub effective_to : Option ℕ
  pub active : Bool
  pub rules : List MatrixRule
  pub routes : List MatrixRoute
  pub rule_notifications : List (ℕ × ℕ)

abbrev pub latest_first : Matrix → Matrix → Bool
latest_first a b = leb b.effective_from a.effective_from

abbrev pub is_effective : ℕ → Matrix → Bool
is_effective as_of x =
    if ltb as_of x.effective_from then false else not (is_before x.effective_to as_of)

unfoldable pub active_matrices : List Matrix → ℕ → List Matrix
active_matrices matrices as_of =
    filter (is_effective as_of) (sort_by latest_first (filter (λ x. x.active) matrices))

-- The DocType Legal Entity.
abbrev pub legal_entity : ℕ
legal_entity = 61

abbrev pub is_in : List ℕ → Option ℕ → Bool
is_in names none = false
is_in names (some n) = contains names n

abbrev pub impacts : List ℕ → ImpactedEntity → Bool
impacts names e = same e.entity_doctype (some legal_entity) && contains names e.entity_value

unfoldable pub matrix_in_scope : Matrix → EscalationMatter → Bool
matrix_in_scope x m =
    if not (is_empty x.scope_risk_types)
      && not (
          is_in x.scope_risk_types m.tier_1_risk_type
          || is_in x.scope_risk_types m.tier_2_risk_type)
    then false
    else is_empty x.scope_legal_entities || any (impacts x.scope_legal_entities) m.impacted_entities

-- CONDITION_FIELDS
abbrev pub condition_fields : List ℕ
condition_fields = 1 ∷ 2 ∷ 3 ∷ 4 ∷ 5 ∷ 6 ∷ 7 ∷ 8 ∷ []

abbrev pub equals : Value → Literal → Bool
equals nothing null = true
equals (text a) (words b) = a == b
equals (check true) (number n) = n == 1
equals (check false) (number n) = n == 0
equals _ _ = false

-- The text "1".
abbrev pub one_text : ℕ
one_text = 1

-- `str(actual or "")`
abbrev pub shown : Value → ℕ
shown nothing = 0
shown (text t) = t
shown (check true) = one_text
shown (check false) = 0
shown (rows n) = 0

abbrev pub by_priority : MatrixRule → MatrixRule → Bool
by_priority a b = leb a.priority b.priority

-- `int_of` is Python's `int` of a text.
module _ (int_of : ℕ → Option ℕ) where
  unfoldable pub parsed : Option ℕ → Result Bool
  parsed none = err (thrown not_a_number)
  parsed (some n) = ok (not (n == 0))

  -- `bool(int(actual or 0))`
  unfoldable pub truth_of : Value → Result Bool
  unfolding parsed
  truth_of nothing = ok false
  truth_of (text t) = if t == 0 then ok false else parsed (int_of t)
  truth_of (check b) = ok b
  truth_of (rows n) = ok (not (n == 0))

  unfoldable pub meets : Expected → Value → Result Bool
  unfolding truth_of
  meets (one_of literals) actual = ok (any (equals actual) literals)
  meets (truth expected) actual = do b ← truth_of actual; ok (bool_eq b expected)
  meets (single expected) actual = ok (shown actual == expected)

  unfoldable pub condition_matches : Condition → EscalationMatter → Result Bool
  unfolding meets
  condition_matches [] m = ok true
  condition_matches ((key, expected) ∷ condition) m = do
    throw_if (not (contains condition_fields key)) unroutable_condition
    holds ← meets expected (value_of m key)
    let rest = condition_matches condition m
    if holds then rest else ok false

  -- The loop over the sorted rules of one matrix.
  unfoldable pub first_rule : List MatrixRule → EscalationMatter → Result (Option MatrixRule)
  first_rule [] m = ok none
  first_rule (r ∷ rules) m =
      let rest = first_rule rules m in
      if r.active
      then (do holds ← condition_matches r.condition m; if holds then ok (some r) else rest)
      else rest

  -- The matrix and the rule that fire.
  unfoldable pub first_match :
      List Matrix → EscalationMatter → Result (Option (Matrix × MatrixRule))
  first_match [] m = ok none
  first_match (x ∷ matrices) m =
      let rest = first_match matrices m in
      if matrix_in_scope x m
      then (do
        found ← first_rule (sort_by by_priority x.rules) m
        elim found [ none ↦ rest | some r ↦ ok (some (x, r)) ])
      else rest

-- A destination that a rule routes to.
pub record Destination : Type 0 where
  pub governance_forum : ℕ
  pub role_in_escalation : Option ℕ

-- The value of `match_rule`.
pub record Match : Type 0 where
  pub matrix : ℕ
  pub rule_code : ℕ
  pub severity : Option ℕ
  pub sla_definition : Option ℕ
  pub route_to_role : Option ℕ
  pub route_to_group : Option ℕ
  pub forums : List Destination
  pub notify_groups : List ℕ

abbrev pub destination : MatrixRoute → Destination
destination r = record {
  governance_forum = r.governance_forum;
  role_in_escalation = r.role_in_escalation;
}

unfoldable pub matched : Matrix → MatrixRule → Match
matched x r = record {
  matrix = x.name;
  rule_code = r.rule_code;
  severity = r.resulting_severity;
  sla_definition = r.sla_definition;
  route_to_role = r.route_to_role;
  route_to_group = r.route_to_group;
  forums = map destination (filter (λ (e : MatrixRoute). e.rule_code == r.rule_code) x.routes);
  notify_groups =
      map (λ (e : ℕ × ℕ). e.1) (filter (λ (e : ℕ × ℕ). e.0 == r.rule_code) x.rule_notifications);
}

abbrev pub match_of : Option (Matrix × MatrixRule) → Option Match
match_of none = none
match_of (some (x, r)) = some (matched x r)

unfoldable pub match_rule :
    (ℕ → Option ℕ) → List Matrix → ℕ → EscalationMatter → Result (Option Match)
match_rule int_of matrices as_of m = do
  found ← first_match int_of (active_matrices matrices as_of) m
  ok (match_of found)

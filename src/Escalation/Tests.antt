-- ===== src/Escalation/Tests.antt =====
-- The moves of a High matter and of a Low one.
use enterprise_management.Base.{
  ℕ, ◌≡◌, refl, ◌↔◌, none, some, true, false, List, [], ◌∷◌, ok, err, thrown, refused, not_a_move,
  not_a_starting_state, unknown_state,
}
use enterprise_management.StateFlags.{flags_for, Flags, is_open, flag_eq, FlagMap}
use enterprise_management.Escalation.{
  specificity, permits, Rule, Matter, Save, validate_rule, validate_status_change, move_refusal,
}
use enterprise_management.Escalation.Permitted.{
  IsChange, IsPermitted, validate_status_change-IsPermitted,
}

-- The states 1 to 3: worked, under review, closed; the severities 5 and 6: High, Low.
abbrev catch_all : Rule
catch_all = record {
  name = 10;
  escalation_type = none;
  severity = none;
  from_status = none;
  to_status = none;
  allowed_role = none;
  active = true;
}

abbrev high_to_review : Rule
high_to_review = record catch_all {
  name = 11;
  severity = some 5;
  from_status = some 1;
  to_status = some 2;
}

abbrev high_to_closed : Rule
high_to_closed = record catch_all {
  name = 12;
  severity = some 5;
  from_status = some 2;
  to_status = some 3;
  allowed_role = some 70;
}

abbrev rules : List Rule
rules = catch_all ∷ high_to_review ∷ high_to_closed ∷ []

abbrev closing : ℕ → Matter
closing severity = record {
  name = 80;
  escalation_type = some 4;
  severity = some severity;
  status = 3;
}

abbrev by_a_person : Save
by_a_person = record { is_new = false; ignore_permissions = false; before = some 1 }

-- A Low matter may be closed at once, a High one not.
low_closes : validate_status_change rules (closing 6) by_a_person [] ≡ ok tt
unfolding validate_status_change permits specificity
low_closes = refl

high_stays :
    validate_status_change rules (closing 5) by_a_person (70 ∷ [])
    ≡ err (refused (move_refusal (closing 5)))
unfolding validate_status_change permits specificity
high_stays = refl

reviewed_closes :
    validate_status_change rules (closing 5) (record by_a_person { before = some 2 }) (70 ∷ [])
    ≡ ok tt
unfolding validate_status_change permits specificity
reviewed_closes = refl

validate_status_change-IsPermitted_example :
    (validate_status_change rules (closing 5) by_a_person (70 ∷ []) ≡ ok tt) ↔ (
      (before : ℕ)
      → IsChange rules (closing 5) by_a_person before
      → IsPermitted rules (closing 5) before 3 (70 ∷ []))
validate_status_change-IsPermitted_example =
    validate_status_change-IsPermitted rules (closing 5) by_a_person (70 ∷ [])

abbrev open_only : Flags
open_only f = flag_eq f is_open

abbrev mapping : FlagMap
mapping = (90, (1, open_only) ∷ (2, open_only) ∷ (3, λ f. false) ∷ []) ∷ []

rule_stays :
    validate_rule (1 ∷ 2 ∷ 3 ∷ []) 90 mapping (record high_to_review { to_status = some 1 })
    ≡ err (thrown not_a_move)
unfolding validate_rule flags_for
rule_stays = refl

rule_at_rest :
    validate_rule (1 ∷ 2 ∷ 3 ∷ []) 90 mapping (record high_to_review { from_status = some 3 })
    ≡ err (thrown not_a_starting_state)
unfolding validate_rule flags_for
rule_at_rest = refl

rule_unknown :
    validate_rule (1 ∷ 2 ∷ 3 ∷ []) 90 mapping (record high_to_review { to_status = some 4 })
    ≡ err (thrown unknown_state)
unfolding validate_rule
rule_unknown = refl

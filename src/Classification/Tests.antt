-- ===== src/Classification/Tests.antt =====
-- A rule set evaluated and overridden, and the theorems about it at these inputs.
use enterprise_management.Base.{
  raised, type_error, overflow_error, ltb, ◌==◌, ℕ, ◌≡◌, ◌↔◌, refl, Option, none, some, Bool, true,
  false, [], ◌∷◌, ok, err, thrown, rule_condition, answer_required, read, filter,
}
use enterprise_management.Classification.{
  Builtins, string, is_in, float_limit, text, number, Answers, equals, greater_than, no_operator,
  Condition, all_of, any_of, leaf, Conditions, nil, cons, leaf_test, leaf_matches, matches,
}
use enterprise_management.Classification.Meaning.{matches-ok_iff}
use enterprise_management.Classification.Faults.{first_fault, leaves}
use enterprise_management.Classification.Assess.{
  single, other_mode, Question, Rule, RuleSet, Assessment, Library, rule_order, validate_answer,
  validate_answers, code_of, outcome_of, classify, override, effective_outcome,
}
use enterprise_management.Classification.Assess.Chosen.{IsFirst, classify-IsFirst}

-- No text is a number or part of another; a number is its own float.
abbrev builtins : Builtins
builtins = record {
  Float = ℕ;
  float_of_text = λ t. none;
  float_of_number = λ n. n;
  is_above = λ a b. ltb b a;
  is_part = λ t s. t == s;
}

-- Question 1 is a choice between 11 and 12; question 2 is a number.
abbrev answers : Answers
answers = (1, some (text 11)) ∷ (2, some (number 7)) ∷ []

abbrev is_eleven : Condition
is_eleven = leaf (some 1) (equals (some (text 11)))

abbrev is_large : Condition
is_large = leaf (some 2) (greater_than (some (number 5)))

abbrev both : Conditions
both = cons is_eleven (cons is_large nil)

abbrev first_question : Question
first_question = record {
  question_code = 1;
  is_required = true;
  answer_mode = single;
  depends_on_question = none;
  depends_on_answer = none;
}

abbrev second_question : Question
second_question = record first_question { question_code = 2; answer_mode = other_mode }

abbrev late : Rule
late = record {
  rule_code = 101;
  priority = 2;
  idx = 1;
  is_active = true;
  condition = is_eleven;
  outcome = 1;
  outcome_rationale = none;
}

abbrev early : Rule
early = record late { rule_code = 102; priority = 1; idx = 2; condition = all_of both; outcome = 2 }

abbrev rules : RuleSet
rules = record {
  name = 50;
  is_active = true;
  is_sealed = false;
  version_label = 1;
  questions = first_question ∷ second_question ∷ [];
  answer_options = (1, 11) ∷ (1, 12) ∷ [];
  rules = late ∷ early ∷ [];
  default_outcome = 0;
}

abbrev library : Library
library = record { rule_sets = rules ∷ []; assessments = [] }

abbrev assessed : Assessment
assessed = record {
  name = 900;
  subject_doctype = 7;
  subject_name = 70;
  rule_set = 50;
  rule_set_version_label = 1;
  matched_rule_code = some 102;
  outcome = 2;
  trace =
      record { rule_code = 102; evaluated = some true }
      ∷ record { rule_code = 101; evaluated = none }
      ∷ [];
  answers = answers;
  evaluated_on = 500;
  evaluated_by = 20;
  overridden = false;
  override_outcome = none;
  override_justification = none;
  override_approved_by = none;
}

abbrev classified_library : Library
classified_library = record {
  rule_sets = record rules { is_sealed = true } ∷ [];
  assessments = assessed ∷ [];
}

abbrev overridden_assessment : Assessment
overridden_assessment = record assessed {
  overridden = true;
  override_outcome = some 1;
  override_justification = some 8;
  override_approved_by = some 30;
}

program : Unit {0}
unfolding leaf_test leaf_matches matches rule_order validate_answer validate_answers classify
    override effective_outcome
program = tt

classified :
    classify builtins library 50 answers 7 70 20 900 500 ≡ ok (classified_library, assessed)
unfolding program
classified = refl

unanswered :
    classify builtins library 50 ((1, some (text 11)) ∷ []) 7 70 20 900 500
    ≡ err (thrown answer_required)
unfolding program
unanswered = refl

overrides :
    override classified_library 900 1 (some 8) 30
    ≡ ok (
      record classified_library { assessments = overridden_assessment ∷ [] },
      overridden_assessment,
    )
unfolding program
overrides = refl

-- A malformed leaf after a leaf that decides is still found.
malformed :
    matches builtins (any_of (cons is_eleven (cons (leaf (some 2) no_operator) nil))) answers
    ≡ err (thrown rule_condition)
unfolding program
malformed = refl

holds : matches builtins (any_of both) answers ≡ ok true
unfolding program
holds = refl

-- A number is looked up in the text 8.
abbrev in_text : Condition
in_text = leaf (some 2) (is_in (string (some 8)))

abbrev faulty : Condition
faulty = any_of (cons is_eleven (cons in_text (cons (leaf none no_operator) nil)))

unfit : matches builtins faulty answers ≡ err (raised type_error)
unfolding program
unfit = refl

-- A bound that is too large passes where there is no answer, and raises on a number.
abbrev too_far : Condition
too_far = leaf (some 2) (greater_than (some (number float_limit)))

unnoticed : matches builtins too_far [] ≡ ok false
unfolding program
unnoticed = refl

overflow : matches builtins too_far answers ≡ err (raised overflow_error)
unfolding program
overflow = refl

matches-ok_iff_example :
    (((b : Bool) × (matches builtins faulty answers ≡ ok b))
      ↔ (first_fault builtins answers (leaves faulty) ≡ none))
    × ((matches builtins faulty answers ≡ err (raised type_error))
        ↔ (first_fault builtins answers (leaves faulty) ≡ some (raised type_error)))
matches-ok_iff_example = matches-ok_iff builtins faulty answers (raised type_error)

classify-IsFirst_example :
    (r : RuleSet) × (read (λ (x : RuleSet). x.name) 50 library.rule_sets ≡ some r)
    × (r.is_active ≡ true)
    × (validate_answers r answers ≡ ok tt)
    × ((found : Option Rule) × IsFirst builtins answers
          (filter (λ (x : Rule). x.is_active) r.rules)
          found
        × (assessed.matched_rule_code ≡ code_of builtins found)
        × (assessed.outcome ≡ outcome_of builtins found r)
        × (effective_outcome assessed ≡ some assessed.outcome))
classify-IsFirst_example = classify-IsFirst builtins answers library 50 7 70 20 900 500 classified

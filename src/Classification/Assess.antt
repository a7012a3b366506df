-- ===== src/Classification/Assess.antt =====
-- consilium_core/classification.py: the evaluation of a rule set, and the override of an outcome.
pub mod Chosen
use enterprise_management.Base.{
  ◌>>=◌, ◌>>◌, ℕ, Option, none, some, Bool, true, false, not, ◌&&◌, List, [], ◌∷◌, ◌++◌, map,
  if◌then◌else◌, ◌==◌, lex, is_some, is_empty, any, all, filter, contains, sort_by, read, write,
  Result, ok, thrown, throw_if, refuse_if, demand, other, classification_override, unknown_question,
  answer_required, invalid_answer, rule_set_inactive, record_missing,
}
use enterprise_management.Classification.{
  Builtins, float, blank, text, number, choices, Given, given_eq, Answers, answer_to, Condition,
  matches,
}

pub data AnswerMode : Type 0 where
  single multiple other_mode : AnswerMode

pub record Question : Type 0 where
  pub question_code : ℕ
  pub is_required : Bool
  pub answer_mode : AnswerMode
  pub depends_on_question : Option ℕ
  pub depends_on_answer : Given

-- `idx` is the row's place in its table.
pub record Rule : Type 0 where
  pub rule_code : ℕ
  pub priority : ℕ
  pub idx : ℕ
  pub is_active : Bool
  pub condition : Condition
  pub outcome : ℕ
  pub outcome_rationale : Option ℕ

-- `answer_options` pairs a question's code with an option's code.
pub record RuleSet : Type 0 where
  pub name : ℕ
  pub is_active : Bool
  pub is_sealed : Bool
  pub version_label : ℕ
  pub questions : List Question
  pub answer_options : List (ℕ × ℕ)
  pub rules : List Rule
  pub default_outcome : ℕ

-- A line of the trace: `none` where the rule was not evaluated.
pub record TraceLine : Type 0 where
  pub rule_code : ℕ
  pub evaluated : Option Bool

pub record Assessment : Type 0 where
  pub name : ℕ
  pub subject_doctype : ℕ
  pub subject_name : ℕ
  pub rule_set : ℕ
  pub rule_set_version_label : ℕ
  pub matched_rule_code : Option ℕ
  pub outcome : ℕ
  pub trace : List TraceLine
  pub answers : Answers
  pub evaluated_on : ℕ
  pub evaluated_by : ℕ
  pub overridden : Bool
  pub override_outcome : Option ℕ
  pub override_justification : Option ℕ
  pub override_approved_by : Option ℕ

pub record Library : Type 0 where
  pub rule_sets : List RuleSet
  pub assessments : List Assessment

-- `given in (None, "", [])`
abbrev pub is_blank : Given → Bool
is_blank none = true
is_blank (some blank) = true
is_blank (some (choices [])) = true
is_blank _ = false

-- The options of a question.
abbrev pub options_of : List (ℕ × ℕ) → ℕ → List ℕ
options_of options question = map (λ o. o.1) (filter (λ o. o.0 == question) options)

-- `v in allowed` for each of the answer's values.
abbrev pub within : List ℕ → Given → Bool
within allowed (some (text t)) = contains allowed t
within allowed (some (choices cs)) = all (contains allowed) cs
within allowed _ = false

abbrev pub is_choice : AnswerMode → Bool
is_choice single = true
is_choice multiple = true
is_choice other_mode = false

abbrev pub is_unmet : Answers → Given → Option ℕ → Bool
is_unmet answers wanted none = false
is_unmet answers wanted (some question) = not (given_eq (answer_to answers question) wanted)

-- The question is asked only on an answer that was not given.
abbrev pub is_moot : Answers → Question → Bool
is_moot answers q = is_unmet answers q.depends_on_answer q.depends_on_question

unfoldable pub validate_answer : List (ℕ × ℕ) → Answers → Question → Result (Unit {0})
validate_answer options answers q =
    let given = answer_to answers q.question_code in
    let allowed = options_of options q.question_code in
    if is_blank given
    then throw_if (q.is_required && not (is_moot answers q)) answer_required
    else throw_if
        (not (is_empty allowed) && (is_choice q.answer_mode && not (within allowed given)))
        invalid_answer

pub validate_each : List (ℕ × ℕ) → Answers → List Question → Result (Unit {0})
unfolding validate_answer
validate_each options answers [] = ok tt
validate_each options answers (q ∷ qs) = do
  validate_answer options answers q
  validate_each options answers qs

-- `_validate_answers`
unfoldable pub validate_answers : RuleSet → Answers → Result (Unit {0})
unfolding validate_each
validate_answers r answers = do
  let codes = map (λ (q : Question). q.question_code) r.questions
  throw_if (any (λ (a : ℕ × Given). not (contains codes a.0)) answers) unknown_question
  validate_each r.answer_options answers r.questions

abbrev pub by_priority : Rule → Rule → Bool
by_priority a b = lex a.priority a.idx b.priority b.idx

-- The active rules in their order.
unfoldable pub rule_order : RuleSet → List Rule
rule_order r = sort_by by_priority (filter (λ (x : Rule). x.is_active) r.rules)

abbrev pub skipped : List Rule → List TraceLine
skipped rules = map (λ (x : Rule). record { rule_code = x.rule_code; evaluated = none }) rules

-- What a rule's result makes of the rules after it.
abbrev pub after_rule :
    Bool
    → Rule
    → List Rule
    → Result (Option Rule × List TraceLine)
    → Result (Option Rule × List TraceLine)
after_rule true x rules rest =
    ok (some x, record { rule_code = x.rule_code; evaluated = some true } ∷ skipped rules)
after_rule false x rules rest = do
  (found, trace) ← rest
  ok (found, record { rule_code = x.rule_code; evaluated = some false } ∷ trace)

module _ (builtins : Builtins) where
  -- `numeric_value` of the stored answers: the float of each number.
  pub store_numbers : Answers → Result (Unit {0})
  store_numbers [] = ok tt
  store_numbers ((question, some (number n)) ∷ answers) = do
    x ← float builtins (some (number n))
    store_numbers answers
  store_numbers ((question, given) ∷ answers) = store_numbers answers

  -- The loop over the rules: the first that matches, and the trace. After a match the outcome of
  -- the rest is not asked for.
  pub first_match : List Rule → Answers → Result (Option Rule × List TraceLine)
  first_match [] answers = ok (none, [])
  first_match (x ∷ rules) answers = do
    result ← matches builtins x.condition answers
    let rest = first_match rules answers
    after_rule result x rules rest

  abbrev pub outcome_of : Option Rule → RuleSet → ℕ
  outcome_of none r = r.default_outcome
  outcome_of (some x) r = x.outcome

  abbrev pub code_of : Option Rule → Option ℕ
  code_of none = none
  code_of (some x) = some x.rule_code

  -- `user` is the user given, or the session's; `name` is the new assessment's.
  unfoldable pub classify :
      Library
      → ℕ
      → Answers
      → (subject_doctype subject_name user name now : ℕ) → Result (Library × Assessment)
  unfolding first_match store_numbers
  classify l rule_set answers subject_doctype subject_name user name now = do
    r ← demand (read (λ (x : RuleSet). x.name) rule_set l.rule_sets) (thrown record_missing)
    throw_if (not r.is_active) rule_set_inactive
    validate_answers r answers
    (found, trace) ← first_match (rule_order r) answers
    store_numbers answers
    let assessment : Assessment = record {
      name = name;
      subject_doctype = subject_doctype;
      subject_name = subject_name;
      rule_set = r.name;
      rule_set_version_label = r.version_label;
      matched_rule_code = code_of found;
      outcome = outcome_of found r;
      trace = trace;
      answers = answers;
      evaluated_on = now;
      evaluated_by = user;
      overridden = false;
      override_outcome = none;
      override_justification = none;
      override_approved_by = none;
    }
    ok (
      record l {
        rule_sets = write (λ (x : RuleSet). x.name) (record r { is_sealed = true }) l.rule_sets;
        assessments = l.assessments ++ assessment ∷ [];
      },
      assessment,
    )

-- `user` is the approver given, or the session's user; a blank justification is `none`.
unfoldable pub override : Library → ℕ → ℕ → Option ℕ → ℕ → Result (Library × Assessment)
override l assessment outcome justification user = do
  a ← demand (read (λ (x : Assessment). x.name) assessment l.assessments) (thrown record_missing)
  refuse_if (not (is_some justification)) (record {
    subject_doctype = a.subject_doctype;
    subject_name = a.subject_name;
    attempted_action = other;
    control = classification_override;
    retention_class = none;
    legal_hold = none;
  })
  let after : Assessment = record a {
    overridden = true;
    override_outcome = some outcome;
    override_justification = justification;
    override_approved_by = some user;
  }
  ok (record l { assessments = write (λ (x : Assessment). x.name) after l.assessments }, after)

unfoldable pub effective_outcome : Assessment → Option ℕ
effective_outcome a = if a.overridden then a.override_outcome else some a.outcome

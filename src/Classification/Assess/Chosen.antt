-- ===== src/Classification/Assess/Chosen.antt =====
-- Which rule a classification goes by, and what an override leaves.
use enterprise_management.Base.{
  ◌≤◌, ltb, Bool-cases, ◌<◌, ℕ, ◌≡◌, refl, sym, ◌∙◌, ap, subst, inl, inr, ◌⊎◌, Option, none, some,
  Bool, true, false, not, List, [], ◌∷◌, Memᴰ, read, filter, sort_by-mem, mem-sort_by, Sorted,
  sort_by-Sorted, is_some, Result, ok, >>=-eq-ok, >>-eq-ok, throw_if-eq-ok, refuse_if-eq-ok, demand,
  demand-eq-ok, ok-injective, not-false, rule_set_inactive, arith, uncons, read-write_self,
  read-name,
}
use enterprise_management.Classification.{Builtins, Answers, matches}
use enterprise_management.Classification.Assess.{
  store_numbers, Rule, RuleSet, TraceLine, Assessment, Library, by_priority, rule_order,
  first_match, outcome_of, code_of, after_rule, validate_answers, classify, override,
  effective_outcome,
}

by_priority_total : (a b : Rule) → by_priority a b ≡ false → by_priority b a ≡ true
by_priority_total a b h = ground arith

by_priority_trans :
    (a b c : Rule) → by_priority a b ≡ true → by_priority b c ≡ true → by_priority a c ≡ true
by_priority_trans a b c h k = ground arith

-- The order of the rules: a smaller priority first, and then the place in the table.
abbrev pub IsBefore : Rule → Rule → Type 0
IsBefore x y = (x.priority < y.priority) ⊎ ((x.priority ≡ y.priority) × (x.idx ≤ y.idx))

by_priority-IsBefore : (x y : Rule) → by_priority x y ≡ true → IsBefore x y
by_priority-IsBefore x y h = elim (Bool-cases (ltb x.priority y.priority)) [
  | inl e ↦ inl (ground arith)
  | inr e ↦ inr (ground arith)
]

module _ (builtins : Builtins) (answers : Answers) where
  -- The rule of the list that a match gives: it matches, and a rule that does not come after it in
  -- the order does not. With no rule given, none of the list matches.
  abbrev pub IsFirst : List Rule → Option Rule → Type 0
  IsFirst rules none = (y : Rule) → Memᴰ y rules → matches builtins y.condition answers ≡ ok false
  IsFirst rules (some x) =
      Memᴰ x rules
      × (matches builtins x.condition answers ≡ ok true)
      × ((y : Rule)
          → Memᴰ y rules
          → (matches builtins y.condition answers ≡ ok false) ⊎ IsBefore x y)

  IsFirst-cons :
      (x : Rule) (rules : List Rule) (found : Option Rule)
      → matches builtins x.condition answers ≡ ok false
      → IsFirst rules found
      → IsFirst (x ∷ rules) found
  IsFirst-cons x rules none e h = λ y m. elim (uncons m) [
    | inl same ↦ subst (λ (z : Rule). matches builtins z.condition answers ≡ ok false) (sym same) e
    | inr n ↦ h y n
  ]
  IsFirst-cons x rules (some z) e (listed, holds, others) = (
    Memᴰ.tail listed,
    holds,
    λ y m. elim (uncons m) [
      | inl same ↦
          inl (subst (λ (w : Rule). matches builtins w.condition answers ≡ ok false) (sym same) e)
      | inr n ↦ others y n
    ],
  )

  after_rule-IsFirst :
      (x : Rule) (rules : List Rule) (result : Bool) {rest : Result (Option Rule × List TraceLine)}
      {found : Option Rule} {trace : List TraceLine}
      → ((y : Rule) → Memᴰ y rules → by_priority x y ≡ true)
      → matches builtins x.condition answers ≡ ok result
      → ((later : Option Rule) (lines : List TraceLine)
          → rest ≡ ok (later, lines)
          → IsFirst rules later)
      → after_rule result x rules rest ≡ ok (found, trace)
      → IsFirst (x ∷ rules) found
  after_rule-IsFirst x rules true first e later h =
      subst (IsFirst (x ∷ rules)) (ap (λ p. p.0) (ok-injective h)) (
        Memᴰ.head refl,
        e,
        λ y m. elim (uncons m) [
          | inl same ↦ inr (subst (IsBefore x) (sym same) (inr (refl, omega arith)))
          | inr n ↦ inr (by_priority-IsBefore x y (first y n))
        ],
      )
  after_rule-IsFirst x rules false {rest} first e later h =
      let ((z, lines), r, h1) = >>=-eq-ok rest _ h in
      subst (IsFirst (x ∷ rules)) (ap (λ p. p.0) (ok-injective h1))
        (IsFirst-cons x rules z e (later z lines r))

  first_match-IsFirst :
      (rules : List Rule) {found : Option Rule} {trace : List TraceLine}
      → Sorted by_priority rules
      → first_match builtins rules answers ≡ ok (found, trace)
      → IsFirst rules found
  unfolding first_match
  first_match-IsFirst [] s h =
      subst (IsFirst []) (ap (λ p. p.0) (ok-injective h)) (λ y m. elim m [ ])
  first_match-IsFirst (x ∷ rules) {found} (first, s) h =
      let (result, e, h1) = >>=-eq-ok (matches builtins x.condition answers) _ h in
      after_rule-IsFirst x rules result first e (λ later lines k. first_match-IsFirst rules s k) h1

  -- Back from the order to the rule set.
  in_order :
      (r : RuleSet) (found : Option Rule)
      → IsFirst (rule_order r) found
      → IsFirst (filter (λ (x : Rule). x.is_active) r.rules) found
  unfolding rule_order
  in_order r none h = λ y m. h y (sort_by-mem by_priority m)
  in_order r (some x) (m, e, others) =
      (mem-sort_by by_priority _ m, e, λ y n. others y (sort_by-mem by_priority n))

  -- A classification that is written has passed the checks on the answers, for an active rule set.
  -- It goes by the rule, among the active ones, that matches and that no other matching rule
  -- precedes by priority and place, and carries its code and outcome. Where no active rule
  -- matches, it carries no code and the default outcome. It is not overridden.
  pub classify-IsFirst :
      (l : Library) (rule_set subject_doctype subject_name user name now : ℕ) {l' : Library}
      {a : Assessment}
      → classify builtins l rule_set answers subject_doctype subject_name user name now ≡ ok (l', a)
      → (r : RuleSet) × (read (λ (x : RuleSet). x.name) rule_set l.rule_sets ≡ some r)
        × (r.is_active ≡ true)
        × (validate_answers r answers ≡ ok tt)
        × ((found : Option Rule) × IsFirst (filter (λ (x : Rule). x.is_active) r.rules) found
            × (a.matched_rule_code ≡ code_of builtins found)
            × (a.outcome ≡ outcome_of builtins found r)
            × (effective_outcome a ≡ some a.outcome))
  unfolding classify rule_order effective_outcome
  classify-IsFirst l rule_set subject_doctype subject_name user name now {l'} {a} h =
      let (r, e, h1) =
        >>=-eq-ok (demand (read (λ (x : RuleSet). x.name) rule_set l.rule_sets) _) _ h in
      let (active, h2) = throw_if-eq-ok (not r.is_active) rule_set_inactive _ h1 in
      let (valid, h3) = >>-eq-ok (validate_answers r answers) _ h2 in
      let ((found, trace), chosen, h4) =
        >>=-eq-ok (first_match builtins (rule_order r) answers) _ h3 in
      let first =
        first_match-IsFirst (rule_order r)
          (sort_by-Sorted by_priority by_priority_total by_priority_trans
            (filter (λ (x : Rule). x.is_active) r.rules))
          chosen in
      let (stored, h5) = >>-eq-ok (store_numbers builtins answers) _ h4 in
      let written = ap (λ p. p.1) (ok-injective h5) in
      (
        r,
        demand-eq-ok _ _ e,
        not-false r.is_active active,
        valid,
        (
          found,
          in_order r found first,
          ap (λ (x : Assessment). x.matched_rule_code) (sym written),
          ap (λ (x : Assessment). x.outcome) (sym written),
          subst (λ (x : Assessment). effective_outcome x ≡ some x.outcome) written refl,
        ),
      )

-- What the evaluation wrote.
abbrev pub evaluated_part : Assessment → Assessment
evaluated_part a = record a {
  overridden = false;
  override_outcome = none;
  override_justification = none;
  override_approved_by = none;
}

-- An override that is made has a justification. It changes neither the answers nor the rule, the
-- trace and the outcome that the evaluation gave; the effective outcome is the overriding one, and
-- the changed assessment is the stored one.
override-outcome :
    (l : Library) (assessment outcome : ℕ) (justification : Option ℕ) (user : ℕ) {l' : Library}
    {a : Assessment}
    → override l assessment outcome justification user ≡ ok (l', a)
    → (is_some justification ≡ true)
      × (effective_outcome a ≡ some outcome)
      × (read (λ (x : Assessment). x.name) assessment l'.assessments ≡ some a)
      × ((b : Assessment) × (read (λ (x : Assessment). x.name) assessment l.assessments ≡ some b)
          × (evaluated_part a ≡ evaluated_part b))
unfolding override effective_outcome
override-outcome l assessment outcome justification user {l'} {a} h =
    let (b, e, h1) =
      >>=-eq-ok (demand (read (λ (x : Assessment). x.name) assessment l.assessments) _) _ h in
    let (given, h2) = refuse_if-eq-ok (not (is_some justification)) _ _ h1 in
    let found = demand-eq-ok _ _ e in
    let written = ap (λ p. p.1) (ok-injective h2) in
    let stored = ap (λ p. p.0.assessments) (ok-injective h2) in
    (
      not-false (is_some justification) given,
      subst (λ (x : Assessment). effective_outcome x ≡ some outcome) written refl,
      subst (λ rows. read (λ (x : Assessment). x.name) assessment rows ≡ some a) stored
          (read-write_self (λ (x : Assessment). x.name) _ assessment l.assessments
              (read-name (λ (x : Assessment). x.name) assessment l.assessments found) found
            ∙ ap some written),
      (b, found, ap evaluated_part (sym written)),
    )

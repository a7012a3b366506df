-- ===== src/Classification/Meaning.antt =====
-- What a condition means: every leaf is evaluated, and `none_of` denies `any_of`.
use enterprise_management.Classification.Faults.{
  leaves, leaves_of, first_fault, first_fault-append, Evaluates, ok-Evaluates, step-Evaluates,
  leaf-Evaluates,
}
use enterprise_management.Base.{
  Fault, some-injective, sym, ◌∙◌, ◌≡◌, refl, ap, ◌↔◌, inl, inr, none, some, Bool, not, ◌&&◌, ◌||◌,
  Result, ok, err, >>=-eq-ok, ok-injective, arith,
}
use enterprise_management.Classification.{
  Builtins, Condition, empty, all_of, any_of, none_of, leaf, Conditions, nil, cons, Answers,
  matches, matches_all, matches_any, matches_none,
}

err-injective : {A : Type 0} {f g : Fault} → ◌≡◌ {A = Result A} (err f) (err g) → f ≡ g
err-injective h = cc

de_morgan : (a b : Bool) → (not a && not b) ≡ not (a || b)
de_morgan a b = ground arith

module _ (builtins : Builtins) where
  mutual
    unfolding matches leaves first_fault

    matches-Evaluates :
        (c : Condition) (answers : Answers)
        → Evaluates (first_fault builtins answers (leaves c)) (matches builtins c answers)
    matches-Evaluates empty answers = ok-Evaluates _
    matches-Evaluates (all_of cs) answers = all-Evaluates cs answers
    matches-Evaluates (any_of cs) answers = any-Evaluates cs answers
    matches-Evaluates (none_of cs) answers = none-Evaluates cs answers
    matches-Evaluates (leaf q t) answers = leaf-Evaluates builtins q t answers

    all-Evaluates :
        (cs : Conditions) (answers : Answers)
        → Evaluates (first_fault builtins answers (leaves_of cs)) (matches_all builtins cs answers)
    all-Evaluates nil answers = ok-Evaluates _
    all-Evaluates (cons c cs) answers =
        rw (first_fault-append builtins answers (leaves c) (leaves_of cs)) (
          step-Evaluates _ _ (matches builtins c answers) (matches_all builtins cs answers)
            (λ a b. a && b) (matches-Evaluates c answers) (all-Evaluates cs answers))

    any-Evaluates :
        (cs : Conditions) (answers : Answers)
        → Evaluates (first_fault builtins answers (leaves_of cs)) (matches_any builtins cs answers)
    any-Evaluates nil answers = ok-Evaluates _
    any-Evaluates (cons c cs) answers =
        rw (first_fault-append builtins answers (leaves c) (leaves_of cs)) (
          step-Evaluates _ _ (matches builtins c answers) (matches_any builtins cs answers)
            (λ a b. a || b) (matches-Evaluates c answers) (any-Evaluates cs answers))

    none-Evaluates :
        (cs : Conditions) (answers : Answers)
        → Evaluates (first_fault builtins answers (leaves_of cs)) (matches_none builtins cs answers)
    none-Evaluates nil answers = ok-Evaluates _
    none-Evaluates (cons c cs) answers =
        rw (first_fault-append builtins answers (leaves c) (leaves_of cs)) (
          step-Evaluates _ _ (matches builtins c answers) (matches_none builtins cs answers)
            (λ a b. not a && b) (matches-Evaluates c answers) (none-Evaluates cs answers))

  -- A condition has a value on some answers exactly when none of its leaves has a fault on them,
  -- wherever the leaf stands, and otherwise raises the fault of the first leaf that has one. A leaf
  -- has a fault that names no question or no known operator; whose `in` or `not_in` cannot look
  -- the answer up; or that compares as numbers an answer that is too large for a float, or an answer
  -- that is a number with an operand that is too large.
  pub matches-ok_iff :
      (c : Condition) (answers : Answers) (fault : Fault)
      → (((b : Bool) × (matches builtins c answers ≡ ok b))
          ↔ (first_fault builtins answers (leaves c) ≡ none))
        × ((matches builtins c answers ≡ err fault)
            ↔ (first_fault builtins answers (leaves c) ≡ some fault))
  matches-ok_iff c answers fault = elim (matches-Evaluates c answers) [
    | inl (t, (b, e)) ↦ ((λ h. t, λ h. (b, e)), (λ h. absurd (cc), λ h. absurd (cc)))
    | inr (f, first, e) ↦ (
      (λ (b, h). absurd (cc), λ h. absurd (cc)),
      (
        λ h. first ∙ ap some (err-injective (sym e ∙ h)),
        λ h. e ∙ ap err (some-injective (sym first ∙ h)),
      ),
    )
  ]

  none-any :
      (cs : Conditions) (answers : Answers) {b : Bool}
      → matches_any builtins cs answers ≡ ok b
      → matches_none builtins cs answers ≡ ok (not b)
  unfolding matches
  none-any nil answers h = rw (← ok-injective h) refl
  none-any (cons c cs) answers h =
      let (r, e, h1) = >>=-eq-ok (matches builtins c answers) _ h in
      let (rs, es, h2) = >>=-eq-ok (matches_any builtins cs answers) _ h1 in
      rw (e, none-any cs answers es, ← ok-injective h2) (ap ok (de_morgan r rs))

  -- Where `any_of` has a value, `none_of` of the same conditions has its negation.
  matches-none_of :
      (cs : Conditions) (answers : Answers) {b : Bool}
      → matches builtins (any_of cs) answers ≡ ok b
      → matches builtins (none_of cs) answers ≡ ok (not b)
  unfolding matches
  matches-none_of cs answers h = none-any cs answers h

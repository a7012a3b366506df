-- ===== src/Matters/Saving/Gate.antt =====
-- What the closure gate lets through, and the other checks of a save.
use enterprise_management.Base.{
  ℕ, ◌≡◌, refl, ap, sym, ◌∙◌, subst, inl, inr, Option, Bool, true, false, not, ◌&&◌, List, is_some,
  arith, Bool-cases, if-true, if-false, not-false, ok, throw_if-eq-ok, ok-injective,
  outcome_required, template_incomplete, external_reference_required,
}
use enterprise_management.StateFlags.{is_open, requires_statement, is_committable}
use enterprise_management.Matters.{EscalationMatter}
use enterprise_management.Matters.Saving.{Closure, has_summary, closure_of, validate_closure}

-- The evidence that a matter at rest must carry, and that an open one has no closing time.
pub record IsSettled (closures : List Closure) (m : EscalationMatter) : Type 0 where
  pub outcome :
      m.flags is_open ≡ false
      → m.flags requires_statement ≡ true
      → has_summary (closure_of closures m.name) ≡ true
  pub responded : m.flags is_open ≡ false → m.response_template_completed ≡ true
  pub tracked :
      m.flags is_open ≡ false → m.flags is_committable ≡ true → is_some m.external_reference ≡ true
  pub dated : is_some m.closed_on ≡ not (m.flags is_open)

abbrev pub with_closed_on : EscalationMatter → Option ℕ → EscalationMatter
with_closed_on m t = record m { closed_on = t }

module _ (closures : List Closure) (m : EscalationMatter) (now : ℕ) where
  needs : (a b : Bool) → (a && not b) ≡ false → a ≡ true → b ≡ true
  needs a b h e = ground arith

  at_rest :
      m.flags is_open ≡ false
      → {m' : EscalationMatter} → validate_closure closures m now ≡ ok m'
      → IsSettled closures m' × (with_closed_on m m'.closed_on ≡ m')
  unfolding validate_closure
  at_rest shut {m'} h =
      let (outcome, h1) =
        throw_if-eq-ok
          (m.flags requires_statement && not (has_summary (closure_of closures m.name)))
          outcome_required _ (sym (if-false _ _ shut) ∙ h) in
      let (responded, h2) =
        throw_if-eq-ok (not m.response_template_completed) template_incomplete _ h1 in
      let (tracked, h3) =
        throw_if-eq-ok (m.flags is_committable && not (is_some m.external_reference))
          external_reference_required _ h2 in
      subst (λ (z : EscalationMatter). IsSettled closures z × (with_closed_on m z.closed_on ≡ z))
        (ok-injective h3)
        (
          record {
            outcome = λ _. needs (m.flags requires_statement) _ outcome;
            responded = λ _. not-false _ responded;
            tracked = λ _. needs (m.flags is_committable) _ tracked;
            dated = sym (ap not shut);
          },
          refl,
        )

  still_open :
      m.flags is_open ≡ true
      → {m' : EscalationMatter} → validate_closure closures m now ≡ ok m'
      → IsSettled closures m' × (with_closed_on m m'.closed_on ≡ m')
  unfolding validate_closure
  still_open up {m'} h =
      subst (λ (z : EscalationMatter). IsSettled closures z × (with_closed_on m z.closed_on ≡ z))
        (ok-injective (sym (if-true _ _ up) ∙ h))
        (
          record {
            outcome = λ shut. cc;
            responded = λ shut. cc;
            tracked = λ shut. cc;
            dated = sym (ap not up);
          },
          refl,
        )

  pub validate_closure-IsSettled :
      {m' : EscalationMatter}
      → validate_closure closures m now ≡ ok m'
      → IsSettled closures m' × (with_closed_on m m'.closed_on ≡ m')
  validate_closure-IsSettled h = elim (Bool-cases (m.flags is_open)) [
    | inl up ↦ still_open up h
    | inr shut ↦ at_rest shut h
  ]

-- ===== src/StateFlags/Refusals.antt =====
-- When `apply_state_flags` refuses: a state label with no configured row.
use enterprise_management.Base.{
  get, ℕ, ◌≡◌, refl, ◌↔◌, ◌⊎◌, inl, inr, ◌∙◌, sym, Option, none, some, Bool, true, false, not, ◌&&◌,
  ◌||◌, List, [], ◌∷◌, filter, any, any-append, arith, Bool-cases, Option-cases, ok, err, thrown,
  state_flags_not_configured, holds_name,
}
use enterprise_management.StateFlags.{
  ByValue, FlagMap, Stateful, set_flags, flag_fields, applies_to, apply_value, apply_field,
  apply_fields, apply_state_flags, in_application_order,
}
use enterprise_management.StateFlags.Applied.{unconfigured_at, value-apply_field}

module _ {ℓ} {A : Type ℓ} (q p : A → Bool) where
  any-split : (xs : List A) → (any q (filter (λ x. not (p x)) xs) || any q (filter p xs)) ≡ any q xs
  any-split [] = refl
  any-split (x ∷ xs) = ground (arith, any-split xs)

any-in_application_order :
    (q : ℕ × ByValue → Bool) (workflow_field : Option ℕ) (m : FlagMap)
    → any q (in_application_order workflow_field m) ≡ any q m
unfolding in_application_order
any-in_application_order q w [] = refl
any-in_application_order q w (x ∷ []) = refl
any-in_application_order q w (x ∷ y ∷ m) =
    any-append q (filter (λ i. not (holds_name w i.0)) (x ∷ y ∷ m)) _
    ∙ any-split q (λ i. holds_name w i.0) (x ∷ y ∷ m)

module _ {D : Type 0} (s : Stateful D) where
  open s use {value}

  -- The record has the field, the field a value, and the value no row.
  abbrev pub is_unconfigured : D → ℕ × ByValue → Bool
  is_unconfigured d i = applies_to s i.0 && unconfigured_at (value d i.0) i.1

  apply_value-refuses :
      (o : Option ℕ) (by_value : ByValue) (d : D)
      → unconfigured_at o by_value ≡ true
      → apply_value s o by_value d ≡ err (thrown state_flags_not_configured)
  unfolding apply_value
  apply_value-refuses none by_value d h = cc
  apply_value-refuses (some v) by_value d h = ground arith

  apply_value-succeeds :
      (o : Option ℕ) (by_value : ByValue) (d : D)
      → unconfigured_at o by_value ≡ false
      → (d' : D) × (apply_value s o by_value d ≡ ok d')
  unfolding apply_value
  apply_value-succeeds none by_value d h = (d, refl)
  apply_value-succeeds (some v) by_value d h = elim (Option-cases (get v by_value)) [
    | inl e ↦ absurd (ground arith)
    | inr (flags, e) ↦ (set_flags s flag_fields flags d, ground arith)
  ]

  apply_field-refuses :
      (i : ℕ × ByValue) (d : D)
      → is_unconfigured d i ≡ true
      → apply_field s i d ≡ err (thrown state_flags_not_configured)
  unfolding apply_field
  apply_field-refuses (f, by_value) d h = ground (arith, apply_value-refuses (value d f) by_value d)

  apply_field-succeeds :
      (i : ℕ × ByValue) (d : D)
      → is_unconfigured d i ≡ false
      → (d' : D) × (apply_field s i d ≡ ok d')
  unfolding apply_field
  apply_field-succeeds (f, by_value) d h = elim (Bool-cases (applies_to s f)) [
    | inl e ↦ rw e (apply_value-succeeds (value d f) by_value d (ground arith))
    | inr e ↦ rw e (d, refl)
  ]

  any-is_unconfigured :
      (items : FlagMap) (d d' : D)
      → ((field : ℕ) → value d' field ≡ value d field)
      → any (is_unconfigured d') items ≡ any (is_unconfigured d) items
  any-is_unconfigured [] d d' h = refl
  any-is_unconfigured ((f, by_value) ∷ items) d d' h = rw (h f, any-is_unconfigured items d d' h)

  apply_fields-cases :
      (items : FlagMap) (d : D)
      → ((any (is_unconfigured d) items ≡ true)
          × (apply_fields s items d ≡ err (thrown state_flags_not_configured)))
        ⊎ ((any (is_unconfigured d) items ≡ false) × ((d' : D) × (apply_fields s items d ≡ ok d')))
  unfolding apply_fields
  apply_fields-cases [] d = inr (refl, (d, refl))
  apply_fields-cases (i ∷ items) d = elim (Bool-cases (is_unconfigured d i)) [
    | inl e ↦ rw (e, apply_field-refuses i d e) (inl (refl, refl))
    | inr e ↦
        let (m, step) = apply_field-succeeds i d e in
        let same = any-is_unconfigured items d m (λ field. value-apply_field s i d field step) in
        rw (e, step) (rw (← same) (apply_fields-cases items m))
  ]

  -- A record is refused for an unconfigured state exactly when it has a mapped state field whose
  -- value no row configures, whichever field the workflow runs on.
  pub apply_state_flags-refuses_iff :
      (workflow_field : Option ℕ) (mapping : FlagMap) (d : D)
      → (apply_state_flags s workflow_field mapping d ≡ err (thrown state_flags_not_configured))
        ↔ (any (is_unconfigured d) mapping ≡ true)
  unfolding apply_state_flags
  apply_state_flags-refuses_iff w mapping d =
      let same = any-in_application_order (is_unconfigured d) w mapping in
      elim (apply_fields-cases (in_application_order w mapping) d) [
        | inl (bad, refused) ↦ (λ h. sym same ∙ bad, λ h. refused)
        | inr (good, (d', done)) ↦ (λ h. absurd (cc), λ h. absurd (cc (same)))
      ]

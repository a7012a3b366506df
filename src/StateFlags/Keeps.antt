-- ===== src/StateFlags/Keeps.antt =====
-- What `apply_state_flags` does not touch, and its effect where one state field is mapped.
use enterprise_management.Base.{
  get, ℕ, ◌≡◌, refl, ◌∙◌, inl, inr, Option, some, Bool, true, List, [], ◌∷◌, arith, Bool-cases, ok,
  >>=-eq-ok,
}
use enterprise_management.StateFlags.{
  Flag, Flags, flag_fields, ByValue, FlagMap, Stateful, set_flags, applies_to, apply_field,
  apply_fields, apply_state_flags, in_application_order,
}
use enterprise_management.StateFlags.Applied.{apply_value-cases, last_decides}

module _ {D X : Type 0} (s : Stateful D) (view : D → X)
    (blind : (d : D) (f : Flag) (b : Bool) → view (s.set d f b) ≡ view d) where
  set_flags-keeps :
      (fs : List Flag) (flags : Flags) (d : D) → view (set_flags s fs flags d) ≡ view d
  unfolding set_flags
  set_flags-keeps [] flags d = refl
  set_flags-keeps (f ∷ fs) flags d = elim (Bool-cases (s.has_flag f)) [
    | inl e ↦ rw e (set_flags-keeps fs flags (s.set d f (flags f)) ∙ blind d f (flags f))
    | inr e ↦ rw e (set_flags-keeps fs flags d)
  ]

  apply_field-keeps :
      (i : ℕ × ByValue) (d : D) {d' : D} → apply_field s i d ≡ ok d' → view d' ≡ view d
  unfolding apply_field
  apply_field-keeps (f, by_value) d {d'} h = elim (Bool-cases (applies_to s f)) [
    | inl e ↦ elim (apply_value-cases s (s.value d f) by_value d (rw e at h)) [
      | inl same ↦ rw (← same)
      | inr (flags, set_as) ↦ rw (← set_as) (set_flags-keeps flag_fields flags d)
    ]
    | inr e ↦ ground arith
  ]

  apply_fields-keeps :
      (items : FlagMap) (d : D) {d' : D} → apply_fields s items d ≡ ok d' → view d' ≡ view d
  unfolding apply_fields
  apply_fields-keeps [] d h = ground arith
  apply_fields-keeps (i ∷ items) d h =
      let (m, e, e') = >>=-eq-ok (apply_field s i d) (apply_fields s items) h in
      apply_fields-keeps items m e' ∙ apply_field-keeps i d e

  -- A view that no flag changes is the same after the flags are applied.
  pub apply_state_flags-keeps :
      (workflow_field : Option ℕ) (mapping : FlagMap) (d : D) {d' : D}
      → apply_state_flags s workflow_field mapping d ≡ ok d'
      → view d' ≡ view d
  unfolding apply_state_flags
  apply_state_flags-keeps w mapping d h = apply_fields-keeps (in_application_order w mapping) d h

module _ {D : Type 0} (s : Stateful D) where
  -- With one mapped field, the flags are those configured for its value.
  pub apply_state_flags-single :
      (w : Option ℕ) (f v : ℕ) (by_value : ByValue) (d : D) {d' : D}
      → applies_to s f ≡ true
      → s.value d f ≡ some v
      → apply_state_flags s w ((f, by_value) ∷ []) d ≡ ok d'
      → (flags : Flags) × (get v by_value ≡ some flags)
        × ((g : Flag) → s.has_flag g ≡ true → s.flag d' g ≡ flags g)
  unfolding apply_state_flags in_application_order
  apply_state_flags-single w f v by_value d a e h = last_decides s f v by_value d a e h

-- ===== src/StateFlags/Applied.antt =====
-- What `apply_state_flags` leaves on a document.
use enterprise_management.Base.{
  get, ℕ, ◌≡◌, refl, ap, ◌∙◌, ◌⊎◌, inl, inr, Option, none, some, Bool, true, false, not, List, [],
  ◌∷◌, ◌++◌, if◌then◌else◌, any, arith, Bool-cases, Option-cases, ok, err, thrown,
  state_flags_not_configured, >>=-eq-ok, is_some,
}
use enterprise_management.StateFlags.{
  Flag, Flags, flag_fields, flag_eq, ByValue, FlagMap, StateRow, get_flag_map, Stateful, set_flags,
  applies_to, apply_value, apply_field, apply_fields, apply_state_flags,
}
use enterprise_management.StateFlags.Order.{get_flag_map-HasUniqueKeys, in_application_order-last}

flag_eq→eq : (f g : Flag) → flag_eq f g ≡ true → f ≡ g
flag_eq→eq f g h = ground arith

abbrev pub unconfigured_at : Option ℕ → ByValue → Bool
unconfigured_at none by_value = false
unconfigured_at (some v) by_value = not (is_some (get v by_value))

module _ {D : Type 0} (s : Stateful D) where
  open s use {has_field, has_flag, value, flag, set, value-set, flag-set}

  value-set_flags :
      (fs : List Flag) (flags : Flags) (d : D) (field : ℕ)
      → value (set_flags s fs flags d) field ≡ value d field
  unfolding set_flags
  value-set_flags [] flags d field = refl
  value-set_flags (f ∷ fs) flags d field = elim (Bool-cases (has_flag f)) [
    | inl e ↦ rw e (value-set_flags fs flags _ field ∙ value-set d f (flags f) field)
    | inr e ↦ rw e (value-set_flags fs flags d field)
  ]

  abbrev mentions : Flag → List Flag → Bool
  mentions g fs = any (λ f. flag_eq f g) fs

  flag-set_flags :
      (fs : List Flag) (flags : Flags) (d : D) (g : Flag)
      → has_flag g ≡ true
      → flag (set_flags s fs flags d) g ≡ (if mentions g fs then flags g else flag d g)
  unfolding set_flags
  flag-set_flags [] flags d g h = refl
  flag-set_flags (f ∷ fs) flags d g h =
      flag-set_flags fs flags (if has_flag f then set d f (flags f) else d) g h
      ∙ elim (Bool-cases (flag_eq f g)) [
        | inl e ↦
            let p = flag_eq→eq f g e in
            ground (arith, ap has_flag p, ap flags p, flag-set d f g (flags f))
        | inr e ↦ ground (arith, flag-set d f g (flags f))
      ]

  -- Every flag that the document declares becomes the configured one.
  flag-set_all :
      (flags : Flags) (d : D) (g : Flag)
      → has_flag g ≡ true
      → flag (set_flags s flag_fields flags d) g ≡ flags g
  flag-set_all flags d g h = flag-set_flags flag_fields flags d g h ∙ listed g
    where
      listed : (g : Flag) → (if mentions g flag_fields then flags g else flag d g) ≡ flags g
      listed g = ground arith

  pub apply_value-cases :
      (o : Option ℕ) (by_value : ByValue) (d : D) {d' : D}
      → apply_value s o by_value d ≡ ok d'
      → (d ≡ d') ⊎ ((flags : Flags) × (set_flags s flag_fields flags d ≡ d'))
  unfolding apply_value
  apply_value-cases none by_value d h = inl (cc)
  apply_value-cases (some v) by_value d h = elim (Option-cases (get v by_value)) [
    | inl e ↦ absurd (ground arith)
    | inr (flags, e) ↦ inr (flags, ground arith)
  ]

  pub value-apply_field :
      (item : ℕ × ByValue) (d : D) {d' : D} (field : ℕ)
      → apply_field s item d ≡ ok d'
      → value d' field ≡ value d field
  unfolding apply_field
  value-apply_field (f, by_value) d {d'} field h = elim (Bool-cases (applies_to s f)) [
    | inl e ↦ elim (apply_value-cases (value d f) by_value d (rw e at h)) [
      | inl same ↦ rw (← same)
      | inr (flags, set_as) ↦ rw (← set_as) (value-set_flags flag_fields flags d field)
    ]
    | inr e ↦ ground arith
  ]

  value-apply_fields :
      (items : FlagMap) (d : D) {d' : D} (field : ℕ)
      → apply_fields s items d ≡ ok d'
      → value d' field ≡ value d field
  unfolding apply_fields
  value-apply_fields [] d field h = ground arith
  value-apply_fields (item ∷ items) d field h =
      let (m, e, e') = >>=-eq-ok (apply_field s item d) (apply_fields s items) h in
      value-apply_fields items m field e' ∙ value-apply_field item d field e

  -- What one field does when its value is configured.
  pub apply_field-configured :
      (f v : ℕ) (by_value : ByValue) (flags : Flags) (d : D)
      → applies_to s f ≡ true
      → value d f ≡ some v
      → get v by_value ≡ some flags
      → apply_field s (f, by_value) d ≡ ok (set_flags s flag_fields flags d)
  unfolding apply_field apply_value
  apply_field-configured f v by_value flags d a e c = ground arith

  apply_field-unconfigured :
      (f v : ℕ) (by_value : ByValue) (d : D)
      → applies_to s f ≡ true
      → value d f ≡ some v
      → get v by_value ≡ none
      → apply_field s (f, by_value) d ≡ err (thrown state_flags_not_configured)
  unfolding apply_field apply_value
  apply_field-unconfigured f v by_value d a e c = ground arith

  apply_fields-append :
      (xs ys : FlagMap) (d : D) {d' : D}
      → apply_fields s (xs ++ ys) d ≡ ok d'
      → (m : D) × (apply_fields s xs d ≡ ok m) × (apply_fields s ys m ≡ ok d')
  unfolding apply_fields
  apply_fields-append [] ys d h = (d, refl, h)
  apply_fields-append (x ∷ xs) ys d h =
      let (m, e, e') = >>=-eq-ok (apply_field s x d) (apply_fields s (xs ++ ys)) h in
      let (n, p, q) = apply_fields-append xs ys m e' in (n, rw e p, q)

  pub last_decides :
      (f v : ℕ) (by_value : ByValue) (m : D) {d' : D}
      → applies_to s f ≡ true
      → value m f ≡ some v
      → apply_fields s ((f, by_value) ∷ []) m ≡ ok d'
      → (flags : Flags) × (get v by_value ≡ some flags)
        × ((g : Flag) → has_flag g ≡ true → flag d' g ≡ flags g)
  unfolding apply_fields
  last_decides f v by_value m {d'} applies has h = elim (Option-cases (get v by_value)) [
    | inl e ↦ absurd (unconfigured e)
    | inr (flags, e) ↦
        (flags, e, λ g declared. rw (← result flags e) (flag-set_all flags m g declared))
  ]
    where
      unconfigured : get v by_value ≡ none → ⊥
      unconfigured e = ground (arith, apply_field-unconfigured f v by_value m)

      result : (flags : Flags) → get v by_value ≡ some flags → set_flags s flag_fields flags m ≡ d'
      result flags e = ground (arith, apply_field-configured f v by_value flags m)

  module _ (rows : List StateRow) (doctype f v : ℕ) {by_value : ByValue} {d d' : D} where
    -- Where the record's workflow runs on a mapped field, the flags that the record ends with
    -- are those configured for that field's value, whatever other fields set.
    apply_state_flags-workflow :
        get f (get_flag_map rows doctype) ≡ some by_value
        → applies_to s f ≡ true
        → value d f ≡ some v
        → apply_state_flags s (some f) (get_flag_map rows doctype) d ≡ ok d'
        → (flags : Flags) × (get v by_value ≡ some flags)
          × ((g : Flag) → has_flag g ≡ true → flag d' g ≡ flags g)
    unfolding apply_state_flags
    apply_state_flags-workflow entry applies has h =
        let (before, split) =
          in_application_order-last f (get_flag_map rows doctype)
            (get_flag_map-HasUniqueKeys rows doctype) entry in
        let (m, first, last) = apply_fields-append before ((f, by_value) ∷ []) d (rw split at h) in
        last_decides f v by_value m applies (value-apply_fields before d f first ∙ has) last

-- ===== src/Matters/Template/Conforms.antt =====
-- When a matter conforms to a template, and that the check of a template decides it.
use enterprise_management.Base.{
  ◌↔◌, ℕ, ◌≡◌, refl, ap, sym, ◌∙◌, subst, inl, inr, Option, none, some, Bool, true, false, not,
  List, [], ◌∷◌, Memᴰ, map-mem, mem-map, filter, filter-mem, mem-filter, is_empty, sort_by-mem,
  mem-sort_by, contains, or_else, read, arith, Bool-cases, not-false, &&_parts, ==_iff, ==_refl,
  ◌==◌, ok, throw_if, throw_if-eq-ok, >>=-eq-ok, demand-eq-ok, ok-injective, some-injective,
  wrong_template, required_by_template, demand, thrown, record_missing, >>-eq-ok,
}
use enterprise_management.Matters.{value_of, EscalationMatter}
use enterprise_management.Matters.Template.{
  low, Template, TemplateField, severity_triggers, is_due, by_display, required_fields,
  is_empty_field, enforce, enforce_named, chosen_template, with_template, apply_template,
}

-- A matter has a value in each field that the template requires at the severity, "Low" where it
-- has none.
pub record Conforms (t : Template) (scope : ℕ) (severity : Option ℕ) (m : EscalationMatter)
    : Type 0 where
  pub scoped : t.template_scope ≡ scope
  pub filled :
      (f : TemplateField)
      → Memᴰ f t.template_fields
      → f.required ≡ true
      → contains (severity_triggers f.required_when_severity) (or_else severity low) ≡ true
      → is_empty_field m f.fieldname ≡ false

module _ {A : Type 0} (p : A → Bool) where
  pub none-filter :
      (xs : List A) → is_empty (filter p xs) ≡ true → (a : A) → Memᴰ a xs → p a ≡ false
  none-filter xs h a mem = elim (Bool-cases (p a)) [
    | inl e ↦ absurd (some_in (filter p xs) (filter-mem p mem e) h)
    | inr e ↦ e
  ]
    where
      some_in : {a : A} (ys : List A) → Memᴰ a ys → is_empty ys ≡ true → ⊥
      some_in [] m h = elim m [ ]
      some_in (y ∷ ys) m h = cc

  filter-none : (xs : List A) → ((a : A) → Memᴰ a xs → p a ≡ false) → is_empty (filter p xs) ≡ true
  filter-none [] h = refl
  filter-none (x ∷ xs) h = rw (h x (Memᴰ.head refl)) (filter-none xs (λ a m. h a (Memᴰ.tail m)))

module _ (t : Template) (scope : ℕ) (severity : Option ℕ) (m : EscalationMatter) where
  required_fields-mem :
      (f : TemplateField)
      → Memᴰ f t.template_fields
      → is_due severity f ≡ true
      → Memᴰ f.fieldname (required_fields t severity)
  unfolding required_fields
  required_fields-mem f mem due =
      map-mem (λ (f : TemplateField). f.fieldname)
        (filter-mem (is_due severity) (sort_by-mem by_display mem) due)

  mem-required_fields :
      (n : ℕ)
      → Memᴰ n (required_fields t severity)
      → (f : TemplateField) × Memᴰ f t.template_fields
        × (is_due severity f ≡ true)
        × (f.fieldname ≡ n)
  unfolding required_fields
  mem-required_fields n mem =
      let (f, found, named) = mem-map (λ (f : TemplateField). f.fieldname) _ mem in
      let (listed, due) = mem-filter (is_due severity) _ found in
      (f, mem-sort_by by_display t.template_fields listed, due, named)

  enforce-Conforms : enforce t scope severity m ≡ ok tt → Conforms t scope severity m
  unfolding enforce
  enforce-Conforms h =
      let (scoped, h1) = throw_if-eq-ok (not (t.template_scope == scope)) wrong_template _ h in
      record {
        scoped = (==_iff _ scope).0 (not-false _ scoped);
        filled = λ f mem needed due.
            none-filter (is_empty_field m) (required_fields t severity)
              (quiet (is_empty (filter (is_empty_field m) (required_fields t severity))) h1)
              f.fieldname (required_fields-mem f mem (rw needed due));
      }
    where
      quiet : (b : Bool) → throw_if (not b) required_by_template ≡ ok tt → b ≡ true
      quiet b h = ground arith

  Conforms-enforce : Conforms t scope severity m → enforce t scope severity m ≡ ok tt
  unfolding enforce
  Conforms-enforce c = rw (
    c.scoped,
    ==_refl scope,
    filter-none (is_empty_field m) (required_fields t severity) all_filled,
  )
    where
      all_filled : (n : ℕ) → Memᴰ n (required_fields t severity) → is_empty_field m n ≡ false
      all_filled n mem =
          let (f, listed, due, named) = mem-required_fields n mem in
          let (needed, triggered) = &&_parts _ _ due in
          subst (λ (z : ℕ). is_empty_field m z ≡ false) named (c.filled f listed needed triggered)

module _ (templates : List Template) (m : EscalationMatter) (scope : ℕ) (severity : Option ℕ) where
  enforced :
      {m' : EscalationMatter}
      → apply_template templates m scope severity ≡ ok m'
      → (enforce_named templates
            (chosen_template templates m scope)
            scope
            severity
            (with_template m (chosen_template templates m scope))
          ≡ ok tt)
        × (with_template m (chosen_template templates m scope) ≡ m')
  unfolding apply_template
  enforced h =
      let (e, last) =
        >>-eq-ok
          (enforce_named templates (chosen_template templates m scope) scope severity
            (with_template m (chosen_template templates m scope)))
          _ h in
      (e, ok-injective last)

  enforce_named-some :
      (name : ℕ) (t : Template) (o : Option ℕ)
      → o ≡ some name
      → read (λ (t : Template). t.name) name templates ≡ some t
      → enforce_named templates o scope severity (with_template m o)
        ≡ enforce t scope severity (with_template m (some name))
  unfolding enforce_named
  enforce_named-some name t o e found = rw (e, found) refl

  -- Where the matter has a template, its own or the one of its type, the template is applied
  -- exactly when the matter conforms to it.
  pub apply_template-Conforms :
      (name : ℕ) (t : Template)
      → chosen_template templates m scope ≡ some name
      → read (λ (t : Template). t.name) name templates ≡ some t
      → (apply_template templates m scope severity ≡ ok (with_template m (some name)))
        ↔ Conforms t scope severity (with_template m (some name))
  unfolding apply_template
  apply_template-Conforms name t chosen found = (λ h. to h, λ c. from c)
    where
      to :
          apply_template templates m scope severity ≡ ok (with_template m (some name))
          → Conforms t scope severity (with_template m (some name))
      to h =
          enforce-Conforms t scope severity _
            (sym (enforce_named-some name t _ chosen found) ∙ (enforced h).0)

      from :
          Conforms t scope severity (with_template m (some name))
          → apply_template templates m scope severity ≡ ok (with_template m (some name))
      from c = rw (enforce_named-some name t (chosen_template templates m scope) chosen found) (
          rw (Conforms-enforce t scope severity (with_template m (some name)) c)
            (ap (λ (o : Option ℕ). ok (with_template m o)) chosen))

  -- A matter that the check of its template lets through differs in the name of the template only.
  pub apply_template-named :
      {m' : EscalationMatter}
      → apply_template templates m scope severity ≡ ok m'
      → with_template m (chosen_template templates m scope) ≡ m'
  apply_template-named h = (enforced h).1

  -- The template that a matter names once it is applied, which the matter conforms to.
  abbrev pub Obeys : Option ℕ → EscalationMatter → Type 0
  Obeys o m' =
      (name : ℕ)
      → o ≡ some name
      → (t : Template) × (read (λ (t : Template). t.name) name templates ≡ some t)
        × Conforms t scope severity m'

  obeys :
      (o : Option ℕ) (m' : EscalationMatter)
      → enforce_named templates o scope severity m' ≡ ok tt
      → Obeys o m'
  unfolding enforce_named
  obeys none m' h name e = cc
  obeys (some n) m' h name e =
      let (t, found, rest) =
        >>=-eq-ok (demand (read (λ (t : Template). t.name) n templates) (thrown record_missing))
          (λ t. enforce t scope severity m') h in
      let named = some-injective e in
      (
        t,
        subst (λ (z : ℕ). read (λ (t : Template). t.name) z templates ≡ some t) named
            (demand-eq-ok _ _ found),
        enforce-Conforms t scope severity m' rest,
      )

  pub apply_template-Obeys :
      {m' : EscalationMatter}
      → apply_template templates m scope severity ≡ ok m'
      → Obeys m'.escalation_template m'
  apply_template-Obeys h =
      let (e, same) = enforced h in
      subst (λ (z : EscalationMatter). Obeys z.escalation_template z) same
        (obeys (chosen_template templates m scope) _ e)

-- What a template reads is not the closing time, nor the clock.
pub Conforms-later :
    (t : Template) (scope : ℕ) (severity : Option ℕ) (m : EscalationMatter)
    (closed_on sla_clock : Option ℕ)
    → Conforms t scope severity m
    → Conforms t scope severity (record m { closed_on = closed_on; sla_clock = sla_clock })
unfolding is_empty_field value_of
Conforms-later t scope severity m closed_on sla_clock c = record {
  scoped = c.scoped;
  filled = c.filled;
}

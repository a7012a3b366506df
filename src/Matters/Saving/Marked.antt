-- ===== src/Matters/Saving/Marked.antt =====
-- What a save leaves of a closure: its matter, its summary and its approver.
use enterprise_management.Base.{
  ℕ, ◌≡◌, refl, ap, sym, ◌∙◌, inl, inr, Option, none, some, Bool, true, false, List, [], ◌∷◌, map,
  ◌==◌, if◌then◌else◌, Option-cases, some-injective, is_some, Bool-cases, if-true, if-false,
}
use enterprise_management.Matters.{EscalationMatter}
use enterprise_management.Matters.Saving.{
  World, Closure, matter_of, closure_of, has_summary, marked,
}
use enterprise_management.Matters.Saving.Stored.{Updated}

-- What the gate and the approval read of a closure: its matter, its summary and its approver.
abbrev pub gist : Closure → ℕ × Option ℕ × Option ℕ
gist c = (matter_of c, c.closure_summary, c.approved_by)

abbrev pub gist_of : Option Closure → Option (ℕ × Option ℕ × Option ℕ)
gist_of none = none
gist_of (some c) = some (gist c)

abbrev summary_in : Option (ℕ × Option ℕ × Option ℕ) → Bool
summary_in none = false
summary_in (some g) = is_some g.1

has_summary-gist_of : (o : Option Closure) → has_summary o ≡ summary_in (gist_of o)
has_summary-gist_of none = refl
has_summary-gist_of (some c) = refl

-- Closures of one gist have a summary alike.
pub has_summary_same :
    (o o' : Option Closure) → gist_of o ≡ gist_of o' → has_summary o ≡ has_summary o'
has_summary_same o o' e = has_summary-gist_of o ∙ ap summary_in e ∙ sym (has_summary-gist_of o')

module _ (name : ℕ) (sensitive : Bool) where
  gist-marked : (c : Closure) → gist (marked name sensitive c) ≡ gist c
  gist-marked c = elim (Bool-cases (c.escalation_matter == name)) [
    | inl e ↦ ap gist (if-true _ _ e)
    | inr e ↦ ap gist (if-false _ _ e)
  ]

  found-gist :
      (b b' : Bool) (c c' : Closure) (o o' : Option Closure)
      → b ≡ b'
      → gist c ≡ gist c'
      → gist_of o ≡ gist_of o'
      → gist_of (if b then some c else o) ≡ gist_of (if b' then some c' else o')
  found-gist true b' c c' o o' e g h = rw (← e) (ap some g)
  found-gist false b' c c' o o' e g h = rw (← e) h

  marked-gist :
      (closures : List Closure) (n : ℕ)
      → gist_of (closure_of (map (marked name sensitive) closures) n)
        ≡ gist_of (closure_of closures n)
  unfolding closure_of
  marked-gist [] n = refl
  marked-gist (c ∷ closures) n =
      found-gist (matter_of (marked name sensitive c) == n) (matter_of c == n)
        (marked name sensitive c) c _ _
        (ap (λ (g : ℕ × Option ℕ × Option ℕ). g.0 == n) (gist-marked c)) (gist-marked c)
        (marked-gist closures n)

module _ (w : World) (before : Option EscalationMatter) (m : EscalationMatter) {w' : World}
    {m' : EscalationMatter} (u : Updated w before m w' m') where
  pub Updated-gist :
      (n : ℕ) → gist_of (closure_of w'.closures n) ≡ gist_of (closure_of w.closures n)
  Updated-gist n = elim u.marks [
    | inl (unchanged, same) ↦ ap (λ (z : List Closure). gist_of (closure_of z n)) same.0
    | inr (marks, _) ↦
        ap (λ (z : List Closure). gist_of (closure_of z n)) marks
        ∙ marked-gist m.name m.sensitive w.closures n
  ]

  -- A closure of the table is there after the update, of the same gist.
  pub Updated-closure :
      (n : ℕ) (c : Closure)
      → closure_of w.closures n ≡ some c
      → (e : Closure) × (closure_of w'.closures n ≡ some e) × (gist e ≡ gist c)
  Updated-closure n c found =
      let g = Updated-gist n ∙ ap gist_of found in
      elim (Option-cases (closure_of w'.closures n)) [
        | inl lost ↦ absurd (let q = sym (ap gist_of lost) ∙ g in cc)
        | inr (e, is_it) ↦ (e, is_it, some-injective (sym (ap gist_of is_it) ∙ g))
      ]

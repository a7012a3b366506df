-- ===== src/Matters/Pathway/Severity.antt =====
-- How routing and a breach move the severity of a matter.
use enterprise_management.Base.{
  inr, inl, ◌⊎◌, ℕ, suc, ◌+◌, ◌≡◌, ◌≤◌, Option, none, some, Bool, true, [], ◌∷◌, arith,
  if◌then◌else◌, contains, Bool-cases,
}
use enterprise_management.Matters.{EscalationMatter}
use enterprise_management.Matters.Pathway.{
  severity_order, severity_index, most_severe, highest, raised_severity, routed_severity,
}

abbrev pub is_known : ℕ → Bool
is_known s = contains severity_order s

-- 1 for "Low" to 3 for "High", and 0 for no severity or an unknown one.
unfoldable pub severity_level : Option ℕ → ℕ
severity_level none = 0
severity_level (some s) = if is_known s then suc (severity_index s) else 0

highest-known :
    (a b : ℕ)
    → is_known a ≡ true
    → is_known b ≡ true
    → (severity_level (some a) ≤ severity_level (highest (some a ∷ some b ∷ [])))
      × (severity_level (some b) ≤ severity_level (highest (some a ∷ some b ∷ [])))
unfolding highest most_severe severity_level
highest-known a b h k = ground arith

severity_level-highest :
    (a : Option ℕ) (b : ℕ)
    → (severity_level a ≤ severity_level (highest (a ∷ some b ∷ [])))
      × (severity_level (some b) ≤ severity_level (highest (a ∷ some b ∷ [])))
unfolding highest most_severe severity_level
severity_level-highest none b = ground arith
severity_level-highest (some a) b = elim (Bool-cases (is_known a)) [
  | inl h ↦ elim (Bool-cases (is_known b)) [ inl k ↦ highest-known a b h k | inr k ↦ ground arith ]
  | inr h ↦ ground arith
]

-- A raised severity is one level up, at most "High".
pub severity_level-raised_severity :
    (s : ℕ)
    → is_known s ≡ true
    → (severity_level (raised_severity (some s)) ≡ severity_level (some s) + 1)
      ⊎ ((severity_level (some s) ≡ 3) × (severity_level (raised_severity (some s)) ≡ 3))
unfolding raised_severity severity_level
severity_level-raised_severity s h = ground arith

-- Once a breach has raised a matter, routing does not lower its severity.
pub routed_severity_mono :
    (m : EscalationMatter) (proposed : Option ℕ)
    → m.auto_escalated ≡ true
    → severity_level m.severity ≤ severity_level (routed_severity m proposed)
routed_severity_mono m none h = omega arith
routed_severity_mono m (some s) h = ground (arith, severity_level-highest m.severity s)

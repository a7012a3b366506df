-- ===== src/Matters/Saving/Handed.antt =====
-- The sensitivity of a matter stands on the records that hang off it.
use enterprise_management.Base.{
  ◌≢◌, arith, write, ℕ, ◌≡◌, refl, ap, sym, ◌∙◌, subst, inl, inr, ◌⊎◌, Option, none, some, Bool,
  true, false, not, List, map, Memᴰ, mem-map, find-mem, write-mem, read, read-write_other, ◌==◌,
  ==_iff, bool_eq, Bool-cases, if-true, if-false, ok,
}
use enterprise_management.Matters.{EscalationMatter}
use enterprise_management.Matters.Site.{Site, Session}
use enterprise_management.Matters.Saving.{
  World, Closure, Dependent, matter_of, name_of, matter_named, save, saving, marked,
  marked_dependent, sensitivity_changed,
}
use enterprise_management.Matters.Saving.Passed.{Passed-own, validate-Passed}
use enterprise_management.Matters.Saving.Stored.{save-Saved}

-- Every one of the rows that belongs to a matter of the table has the sensitivity of the matter.
abbrev pub Carries : {A : Type 0} → (A → ℕ) → (A → Bool) → World → List A → Type 0
Carries {A} of flag w rows =
    (n : ℕ) (m : EscalationMatter)
    → matter_named w n ≡ some m
    → (a : A) → Memᴰ a rows
    → of a ≡ n
    → flag a ≡ m.sensitive

abbrev pub of_dependent : Dependent → ℕ
of_dependent d = d.escalation_matter

abbrev ClosuresCarry : World → List Closure → Type 0
ClosuresCarry w rows = Carries matter_of (λ (c : Closure). c.sensitive) w rows

abbrev DependentsCarry : World → List Dependent → Type 0
DependentsCarry w rows = Carries of_dependent (λ (d : Dependent). d.sensitive) w rows

abbrev pub IsHanded : World → Type 0
IsHanded w = ClosuresCarry w w.closures × DependentsCarry w w.dependents

same_flag : (a b : Bool) → not (bool_eq a b) ≡ false → a ≡ b
same_flag a b h = ground arith

-- A matter that a save stores is the one of its name, and the others are as before.
stored_named :
    (w w' : World) (m : EscalationMatter) (n : ℕ) {x : EscalationMatter}
    → w'.matters ≡ write name_of m w.matters
    → matter_named w' n ≡ some x
    → (n ≡ m.name) × (x ≡ m) ⊎ (n ≢ m.name) × (matter_named w n ≡ some x)
stored_named w w' m n {x} written h =
    let there = ap (λ (z : List EscalationMatter). read name_of n z) (sym written) ∙ h in
    elim (Bool-cases (n == m.name)) [
      | inl is_it ↦
          let named = (==_iff n m.name).0 is_it in
          let (listed, found) = find-mem (λ (e : EscalationMatter). name_of e == n) _ there in
          elim (write-mem name_of m w.matters listed) [
            | inl same ↦ inl (named, same)
            | inr (_, other) ↦ absurd (other ((==_iff x.name n).0 found ∙ named))
          ]
      | inr other ↦
          let off : n ≢ m.name = λ q. let q' = (==_iff n m.name).1 q in cc in
          inr (off, sym (read-write_other name_of m n w.matters (λ q. off (sym q))) ∙ there)
    ]

module _ {A : Type 0} (of : A → ℕ) (flag : A → Bool) (mark : A → A) (m : EscalationMatter)
    (hit : (a : A) → (of a == m.name) ≡ true → (flag (mark a) ≡ m.sensitive) × (of (mark a) ≡ of a))
    (miss : (a : A) → (of a == m.name) ≡ false → mark a ≡ a) where
  -- A row that is marked has the sensitivity of the matter, any other is as before.
  marks_or_not :
      (rows : List A) (a : A)
      → Memᴰ a (map mark rows)
      → (of a ≡ m.name) × (flag a ≡ m.sensitive) ⊎ (of a ≢ m.name) × Memᴰ a rows
  marks_or_not rows a mem =
      let (a0, listed, same) = mem-map mark rows mem in
      elim (Bool-cases (of a0 == m.name)) [
        | inl is_it ↦
            let (set, kept) = hit a0 is_it in
            inl
              (ap of (sym same) ∙ kept ∙ (==_iff (of a0) m.name).0 is_it, ap flag (sym same) ∙ set)
        | inr other ↦
            let quiet = sym (miss a0 other) ∙ same in
            inr (
              λ q. let q' = (==_iff (of a0) m.name).1 (ap of quiet ∙ q) in cc,
              subst (λ (z : A). Memᴰ z rows) quiet listed,
            )
      ]

  -- The rows after an update, with the matter of the update stored.
  Carries-marked :
      (w w' : World) (stored : EscalationMatter) (rows : List A)
      → stored.name ≡ m.name
      → stored.sensitive ≡ m.sensitive
      → w'.matters ≡ write name_of stored w.matters
      → Carries of flag w rows
      → Carries of flag w' (map mark rows)
  Carries-marked w w' stored rows named alike written carries n x found a mem belongs =
      elim (stored_named w w' stored n written found) [
        | inl (is_it, same) ↦ elim (marks_or_not rows a mem) [
          | inl (_, set) ↦ set ∙ sym alike ∙ ap (λ (z : EscalationMatter). z.sensitive) (sym same)
          | inr (other, _) ↦ absurd (other (belongs ∙ is_it ∙ named))
        ]
        | inr (off, before) ↦ elim (marks_or_not rows a mem) [
          | inl (is_it, _) ↦ absurd (off (sym belongs ∙ is_it ∙ sym named))
          | inr (_, listed) ↦ carries n x before a listed belongs
        ]
      ]

unchanged_sensitivity :
    (before : Option EscalationMatter) (m : EscalationMatter)
    → sensitivity_changed before m ≡ false
    → (old : EscalationMatter) × (before ≡ some old) × (old.sensitive ≡ m.sensitive)
unchanged_sensitivity none m h = absurd (cc)
unchanged_sensitivity (some old) m h = (old, refl, same_flag old.sensitive m.sensitive h)

-- The rows of a matter whose sensitivity is the one that the table has.
Carries-unchanged :
    {A : Type 0} (of : A → ℕ) (flag : A → Bool) (w w' : World) (m old : EscalationMatter)
    (rows : List A)
    → matter_named w m.name ≡ some old
    → old.sensitive ≡ m.sensitive
    → w'.matters ≡ write name_of m w.matters
    → Carries of flag w rows
    → Carries of flag w' rows
Carries-unchanged of flag w w' m old rows there alike written carries n x found a mem belongs =
    elim (stored_named w w' m n written found) [
      | inl (is_it, same) ↦
          carries m.name old there a mem (belongs ∙ is_it)
          ∙ alike
          ∙ ap (λ (z : EscalationMatter). z.sensitive) (sym same)
      | inr (off, before) ↦ carries n x before a mem belongs
    ]

hit_closure :
    (name : ℕ) (sensitive : Bool) (c : Closure)
    → (matter_of c == name) ≡ true
    → ((marked name sensitive c).sensitive ≡ sensitive)
      × (matter_of (marked name sensitive c) ≡ matter_of c)
hit_closure name sensitive c h =
    (ap (λ (z : Closure). z.sensitive) (if-true _ _ h), ap matter_of (if-true _ _ h))

hit_dependent :
    (name : ℕ) (sensitive : Bool) (d : Dependent)
    → (of_dependent d == name) ≡ true
    → ((marked_dependent name sensitive d).sensitive ≡ sensitive)
      × (of_dependent (marked_dependent name sensitive d) ≡ of_dependent d)
hit_dependent name sensitive d h =
    (ap (λ (z : Dependent). z.sensitive) (if-true _ _ h), ap of_dependent (if-true _ _ h))

-- A save that succeeds keeps the sensitivity of each matter on its closures, action plans and risk
-- acceptances: where each of these rows had the sensitivity of its matter before, it has so after.
pub save-IsHanded :
    (site : Site) (w : World) (by : Session) (ignore_permissions : Bool) (m0 : EscalationMatter)
    {w' : World} {m : EscalationMatter}
    → save site w by ignore_permissions m0 ≡ ok (w', m)
    → IsHanded w
    → IsHanded w'
save-IsHanded site w by ignore_permissions m0 {w'} {m} h (closures, dependents) =
    let s = save-Saved site w by ignore_permissions m0 h in
    let v = s.checked in
    let named = ap (λ (z : EscalationMatter). z.name) s.update.same in
    let alike = ap (λ (z : EscalationMatter). z.sensitive) s.update.same in
    elim s.update.marks [
      | inl (unchanged, same) ↦
          let (old, there, kept) = unchanged_sensitivity (matter_named w m0.name) v unchanged in
          let given =
            ap (λ (z : EscalationMatter). z.name)
              (Passed-own site w.closures by (saving site w m0 ignore_permissions) m0 v (
                validate-Passed site w.closures by (saving site w m0 ignore_permissions) m0
                  s.passed)) in
          let found = ap (λ (n : ℕ). matter_named w n) (named ∙ given) ∙ there in
          (
            subst (λ (z : List Closure). ClosuresCarry w' z) (sym same.0)
                (Carries-unchanged matter_of (λ (c : Closure). c.sensitive) w w' m old w.closures
                  found (kept ∙ sym alike) s.matters closures),
            subst (λ (z : List Dependent). DependentsCarry w' z) (sym same.1)
                (Carries-unchanged of_dependent (λ (d : Dependent). d.sensitive) w w' m old
                  w.dependents found (kept ∙ sym alike) s.matters dependents),
          )
      | inr (marked_closures, marked_dependents) ↦ (
        subst (λ (z : List Closure). ClosuresCarry w' z) (sym marked_closures)
            (Carries-marked matter_of (λ (c : Closure). c.sensitive) (marked v.name v.sensitive) v
              (hit_closure v.name v.sensitive) (λ c h. if-false _ _ h) w w' m w.closures named alike
              s.matters closures),
        subst (λ (z : List Dependent). DependentsCarry w' z) (sym marked_dependents)
            (Carries-marked of_dependent (λ (d : Dependent). d.sensitive)
              (marked_dependent v.name v.sensitive) v (hit_dependent v.name v.sensitive)
              (λ d h. if-false _ _ h) w w' m w.dependents named alike s.matters dependents),
      )
    ]

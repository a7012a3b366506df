-- ===== src/Matters/Breach/Once.antt =====
-- The sweep records each breach once.
use enterprise_management.Base.{
  ℕ, ◌≡◌, ◌≤◌, refl, sym, ◌∙◌, subst, inl, inr, Option, none, some, true, List, [], ◌∷◌, Memᴰ,
  uncons, filter, Sorted, sort_by-Sorted, read-name, arith, Bool-cases, some-injective, if-true,
  if-false, ◌==◌, ==_iff, ok, >>=-eq-ok, ok-injective, is_some,
}
use enterprise_management.Clocks.{Clock}
use enterprise_management.Matters.{EscalationMatter, matter_doctype}
use enterprise_management.Matters.Site.{Site, Session}
use enterprise_management.Matters.Saving.{World, name_of, matter_named}
use enterprise_management.Matters.Breach.{
  breached_at, by_breach, breached_clocks, is_passed_over, record_breach, escalate, escalate_if,
  escalate_all,
}
use enterprise_management.Matters.Breach.Recorded.{
  Raised, record_breach-Raised, Raised-self, Raised-other,
}

-- The matter of the clock, if there is one, is not to be escalated for it.
abbrev pub IsDone : World → Clock → Type 0
IsDone w c =
    (m : EscalationMatter) → matter_named w c.subject_name ≡ some m → is_passed_over m c ≡ true

late_enough :
    (m : EscalationMatter) (c : Clock) (t : ℕ)
    → m.last_breach_on ≡ some t
    → breached_at c ≤ t
    → is_passed_over m c ≡ true
late_enough m c t e h = ground arith

module _ (site : Site) (by : Session) where
  -- One clock: afterwards it is done, and so is every clock that was done and breached no later.
  record Done (w : World) (c : Clock) (w' : World) : Type 0 where
    here : IsDone w' c
    before : (d : Clock) → breached_at d ≤ breached_at c → IsDone w d → IsDone w' d

  Raised-Done :
      (w : World) (m : EscalationMatter) (c : Clock) {w' : World}
      → matter_named w c.subject_name ≡ some m
      → Raised site w by m c.name (breached_at c) w'
      → Done w c w'
  Raised-Done w m c {w'} stored_as r = record {
    here = λ x e. done_at c (omega arith) x (sym named) e;
    before = λ d earlier done x e. elim (Bool-cases (m.name == d.subject_name)) [
      | inl same ↦ done_at d earlier x ((==_iff _ _).0 same) e
      | inr other ↦ done x (
          sym (
            Raised-other site w by m c.name (breached_at c) r d.subject_name
              (λ q. let q' = (==_iff m.name d.subject_name).1 q in cc))
          ∙ e)
    ];
  }
    where
      named : c.subject_name ≡ m.name
      named = sym (read-name name_of c.subject_name w.matters stored_as)

      found : matter_named w' m.name ≡ some r.raised
      found =
          Raised-self site w by m c.name (breached_at c) r
            (subst (λ (n : ℕ). matter_named w n ≡ some m) named stored_as)

      done_at :
          (d : Clock)
          → breached_at d ≤ breached_at c
          → (x : EscalationMatter) → m.name ≡ d.subject_name
          → matter_named w' d.subject_name ≡ some x
          → is_passed_over x d ≡ true
      done_at d earlier x same e =
          let is_it =
            some-injective
              (sym found ∙ subst (λ (n : ℕ). matter_named w' n ≡ some x) (sym same) e) in
          late_enough x d (breached_at c)
            (subst (λ (z : EscalationMatter). z.last_breach_on ≡ some (breached_at c)) is_it
              r.dated)
            earlier

  escalate-Done :
      (w : World) (m : EscalationMatter) (c : Clock) {w' : World} {names : List ℕ}
      → matter_named w c.subject_name ≡ some m
      → escalate site w by m c ≡ ok (w', names)
      → Done w c w'
  unfolding escalate
  escalate-Done w m c {w'} {names} stored_as h = elim (Bool-cases (is_passed_over m c)) [
    | inl passed ↦
        subst (λ (z : World × List ℕ). Done w c z.0) (ok-injective (sym (if-true _ _ passed) ∙ h))
          (record {
            here = λ x e.
                subst (λ (z : EscalationMatter). is_passed_over z c ≡ true)
                  (some-injective (sym stored_as ∙ e)) passed;
            before = λ d earlier done. done;
          })
    | inr due ↦
        let (w1, records, last) =
          >>=-eq-ok (record_breach site w by m c.name (breached_at c)) (λ w1. ok (w1, m.name ∷ []))
            (sym (if-false _ _ due) ∙ h) in
        subst (λ (z : World × List ℕ). Done w c z.0) (ok-injective last)
          (Raised-Done w m c stored_as
            (record_breach-Raised site w by m c.name (breached_at c) records))
  ]

  escalate_if-Done :
      (w : World) (c : Clock) (o : Option EscalationMatter) {w' : World} {names : List ℕ}
      → matter_named w c.subject_name ≡ o
      → escalate_if site w by o c ≡ ok (w', names)
      → Done w c w'
  escalate_if-Done w c none e h =
      subst (λ (z : World × List ℕ). Done w c z.0) (ok-injective h)
        (record {
          here = λ x e'. absurd (let q = sym e ∙ e' in cc);
          before = λ d earlier done. done;
        })
  escalate_if-Done w c (some m) e h = escalate-Done w m c e h

  stays-IsDone :
      (w : World) (clocks : List Clock) {w' : World} {names : List ℕ} (d : Clock)
      → ((c : Clock) → Memᴰ c clocks → breached_at d ≤ breached_at c)
      → escalate_all site w by clocks ≡ ok (w', names)
      → IsDone w d
      → IsDone w' d
  unfolding escalate_all
  stays-IsDone w [] d earlier h done =
      subst (λ (z : World × List ℕ). IsDone z.0 d) (ok-injective h) done
  stays-IsDone w (c ∷ clocks) {w'} {names} d earlier h done =
      let ((w1, first), e, h1) =
        >>=-eq-ok (escalate_if site w by (matter_named w c.subject_name) c) _ h in
      let ((w2, rest), e', last) = >>=-eq-ok (escalate_all site w1 by clocks) _ h1 in
      let one = escalate_if-Done w c _ refl e in
      subst (λ (z : World × List ℕ). IsDone z.0 d) (ok-injective last)
        (stays-IsDone w1 clocks d (λ x mem. earlier x (Memᴰ.tail mem)) e'
          (one.before d (earlier c (Memᴰ.head refl)) done))

  all-IsDone :
      (w : World) (clocks : List Clock) {w' : World} {names : List ℕ}
      → Sorted by_breach clocks
      → escalate_all site w by clocks ≡ ok (w', names)
      → (c : Clock) → Memᴰ c clocks
      → IsDone w' c
  unfolding escalate_all
  all-IsDone w [] sorted h c mem = elim mem [ ]
  all-IsDone w (x ∷ clocks) {w'} {names} (first_le, sorted) h c mem =
      let ((w1, first), e, h1) =
        >>=-eq-ok (escalate_if site w by (matter_named w x.subject_name) x) _ h in
      let ((w2, rest), e', last) = >>=-eq-ok (escalate_all site w1 by clocks) _ h1 in
      let one = escalate_if-Done w x _ refl e in
      subst (λ (z : World × List ℕ). IsDone z.0 c) (ok-injective last)
        (elim (uncons mem) [
          | inl same ↦
              subst (λ (z : Clock). IsDone w2 z) (sym same)
                (stays-IsDone w1 clocks x (λ y in_rest. ground (arith, first_le y in_rest)) e'
                  one.here)
          | inr later ↦ all-IsDone w1 clocks sorted e' c later
        ])

module _ (site : Site) (by : Session) where
  passes :
      (w : World) (m : EscalationMatter) (c : Clock)
      → is_passed_over m c ≡ true
      → escalate site w by m c ≡ ok (w, [])
  unfolding escalate
  passes w m c e = if-true _ _ e

  quiet_if_done :
      (w : World) (clocks : List Clock)
      → ((c : Clock) → Memᴰ c clocks → IsDone w c)
      → escalate_all site w by clocks ≡ ok (w, [])
  unfolding escalate_all
  quiet_if_done w [] done = refl
  quiet_if_done w (c ∷ clocks) done =
      rw (quiet (matter_named w c.subject_name) refl)
        (rw (quiet_if_done w clocks (λ x mem. done x (Memᴰ.tail mem))) refl)
    where
      quiet :
          (o : Option EscalationMatter)
          → matter_named w c.subject_name ≡ o
          → escalate_if site w by o c ≡ ok (w, [])
      quiet none e = refl
      quiet (some m) e = passes w m c (done c (Memᴰ.head refl) m e)

breached_clocks-Sorted : (clocks : List Clock) → Sorted by_breach (breached_clocks clocks)
unfolding breached_clocks
breached_clocks-Sorted clocks =
    sort_by-Sorted by_breach (λ a b h. ground arith) (λ a b c h k. ground arith)
      (filter (λ (c : Clock). is_some c.breached_on)
        (filter (λ (c : Clock). c.subject_doctype == matter_doctype) clocks))

-- When the escalation of the breached clocks has run to its end, the same run over the same clocks,
-- by whomever and whenever, escalates nothing and changes nothing.
pub escalate_all-Once :
    (site : Site) (w : World) (by next : Session) (clocks : List Clock) {w' : World}
    {names : List ℕ}
    → escalate_all site w by (breached_clocks clocks) ≡ ok (w', names)
    → escalate_all site w' next (breached_clocks clocks) ≡ ok (w', [])
escalate_all-Once site w by next clocks h =
    quiet_if_done site next _ (breached_clocks clocks)
      (all-IsDone site by w (breached_clocks clocks) (breached_clocks-Sorted clocks) h)

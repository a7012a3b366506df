-- ===== src/Matters/Acting/Closing.antt =====
-- A matter that is closed comes to rest, with its evidence and an approved closure.
use enterprise_management.Base.{
  get, ℕ, ◌≡◌, refl, ap, sym, ◌∙◌, subst, inl, inr, Option, some, Bool, true, false, not, Memᴰ,
  mem-filter, is_some, read, read-name, read-write_self, Bool-cases, if-true, if-false, arith, ok,
  >>-eq-ok, ok-injective,
}
use enterprise_management.StateFlags.{Flags, ByValue, FlagMap, is_open, flags_for}
use enterprise_management.Matters.{EscalationMatter, status_field}
use enterprise_management.Matters.Site.{Site, Session}
use enterprise_management.Matters.Saving.{
  stored, World, Closure, closure_of, matter_of, validate_closure_record,
}
use enterprise_management.Matters.Saving.Sound.{Saved-IsSound}
use enterprise_management.Matters.Saving.Kept.{ByStatus}
use enterprise_management.Matters.Saving.Marked.{gist, Updated-closure}
use enterprise_management.Matters.Acting.{
  matter_named, approved_closure, closing_states, closing, is_rest_state, status_flags,
  save_closure, approve, close_matter,
}
use enterprise_management.Matters.Acting.Steps.{close_matter-Closed}
use enterprise_management.Matters.Acting.Ownership.{Saved-own}

module _ (site : Site) (by_value : ByValue) (by_status : ByStatus site by_value) where
  status_flags-by_value : (status : ℕ) → status_flags site status ≡ get status by_value
  unfolding flags_for
  status_flags-by_value status = ap (λ (z : FlagMap). flags_for z status_field status) by_status

  -- The flags of a state that a matter comes to rest in.
  closing_states-rest :
      (status : ℕ) (flags : Flags)
      → Memᴰ status (closing_states site)
      → get status by_value ≡ some flags
      → flags is_open ≡ false
  unfolding closing_states
  closing_states-rest status flags mem e =
      let (listed, rest) =
        mem-filter (λ s. is_rest_state site (status_flags site s)) site.status_options mem in
      let rest' : not (flags is_open) ≡ true =
        subst (λ (o : Option Flags). is_rest_state site o ≡ true) (status_flags-by_value status ∙ e)
          rest in
      ground arith

-- The closure that the table has is of the approver that the one to be approved has.
approve-approved :
    (site : Site) (w : World) (c e : Closure) (by : Session) (name : ℕ) {w' : World}
    → closure_of w.closures name ≡ some e
    → gist e ≡ gist c
    → approve site w c by ≡ ok w'
    → (c' : Closure) × (closure_of w'.closures name ≡ some c') × (is_some c'.approved_by ≡ true)
unfolding save_closure closure_of
approve-approved site w c e by name {w'} found same h = elim (Bool-cases (is_some c.approved_by)) [
  | inl already ↦ (
    e,
    ap (λ (z : World). read matter_of name z.closures)
          (sym (ok-injective (sym (if-true _ _ already) ∙ h)))
        ∙ found,
    ap (λ (g : ℕ × Option ℕ × Option ℕ). is_some g.2) same ∙ already,
  )
  | inr unapproved ↦
      let c' = approved_closure site w c by in
      let (checked, last) =
        >>-eq-ok (validate_closure_record c') _ (sym (if-false _ _ unapproved) ∙ h) in
      (
        c',
        ap (λ (z : World). read matter_of name z.closures) (sym (ok-injective last))
            ∙ read-write_self matter_of c' name w.closures
                (sym (ap (λ (g : ℕ × Option ℕ × Option ℕ). g.0) same)
                  ∙ read-name matter_of name w.closures found)
                found,
        refl,
      )
]

-- The matter of a closure that succeeded, and the closure.
pub record IsClosed (w : World) (m : EscalationMatter) (status : ℕ) : Type 0 where
  pub in_state : m.status ≡ status
  pub at_rest : m.flags is_open ≡ false
  pub closed_on : is_some m.closed_on ≡ true
  pub responded : m.response_template_completed ≡ true
  pub closure : Closure
  pub recorded : closure_of w.closures m.name ≡ some closure
  pub approved : is_some closure.approved_by ≡ true

-- Where the flags of a matter are configured by its status alone, a matter that `close_matter`
-- closes is stored in the state asked for, at rest, with a closing time and its response template
-- complete, and its closure is recorded and approved.
pub close_matter-IsClosed :
    (site : Site) (by_value : ByValue) (w : World) (by : Session) (name status : ℕ)
    (completed : Bool) {w' : World} {m : EscalationMatter}
    → ByStatus site by_value
    → close_matter site w by name status completed ≡ ok (w', m)
    → IsClosed w' m status
close_matter-IsClosed site by_value w by name status completed {w'} {m} by_status h =
    let c = close_matter-Closed site w by name status completed h in
    let own_ =
      Saved-own site w by true (closing site c.before c.closure status completed) c.saved in
    let in_state = ap (λ (z : EscalationMatter). z.status) own_ in
    let same_name = ap (λ (z : EscalationMatter). z.name) own_ in
    let sound = Saved-IsSound site by_value by_status w by true _ c.saved in
    let (flags, at, set) = sound.configured in
    let shut =
      set is_open refl
      ∙ closing_states-rest site by_value by_status status flags c.listed
          (ap (λ (n : ℕ). get n by_value) (sym in_state) ∙ at) in
    let (e, listed, alike) =
      Updated-closure (stored w c.saved.checked) (matter_named w c.before.name) c.saved.checked
        c.saved.update c.before.name c.closure c.recorded in
    let (c', recorded, approved) =
      approve-approved site c.between c.closure e by c.before.name listed alike c.approval in
    record {
      in_state = in_state;
      at_rest = shut;
      closed_on = sound.settled.dated ∙ ap not shut;
      responded = sound.settled.responded shut;
      closure = c';
      recorded = ap (λ (n : ℕ). closure_of w'.closures n) same_name ∙ recorded;
      approved = approved;
    }

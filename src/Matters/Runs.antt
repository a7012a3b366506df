-- ===== src/Matters/Runs.antt =====
-- The actions on the matters as steps of one relation, and what holds after any run of them.
use enterprise_management.Base.{
  Option, ℕ, ◌≡◌, ap, sym, ◌∙◌, subst, inl, inr, some, Bool, true, List, is_some, read, write,
  read-name, read-write_self, read-write_other, Bool-cases, ◌==◌, ==_iff, if-true, if-false, ok,
  >>-eq-ok, ok-injective,
}
use enterprise_management.StateFlags.{ByValue}
use enterprise_management.Matters.{EscalationMatter}
use enterprise_management.Matters.Site.{Site, Session}
use enterprise_management.Matters.Saving.{
  matter_named, stored, World, Closure, matter_of, closure_of, has_summary, validate_closure_record,
  insert,
}
use enterprise_management.Matters.Saving.Sound.{with_closures}
use enterprise_management.Matters.Saving.Kept.{ByStatus, AllSound, Saved-AllSound, insert-AllSound}
use enterprise_management.Matters.Saving.Marked.{gist, Updated-closure}
use enterprise_management.Matters.Acting.{
  approved_closure, move_matter_status, close_matter, settle_ownership, approve, save_closure,
}
use enterprise_management.Matters.Acting.Steps.{
  move_matter_status-Moved, close_matter-Closed, settle_ownership-Taken,
}
use enterprise_management.Matters.Rerouting.{Wanted, set_pathway}
use enterprise_management.Matters.Rerouting.Kept.{set_pathway-Rerouted}
use enterprise_management.Matters.Breach.{sweep_breaches}
use enterprise_management.Matters.Breach.Sound.{sweep_breaches-AllSound}

-- One action that succeeds.
pub data Act (site : Site) : World → World → Type 0 where
  raised :
      {w w' : World} {m : EscalationMatter} (by : Session) (m0 : EscalationMatter)
      → insert site w by m0 ≡ ok (w', m)
      → Act site w w'
  moved :
      {w w' : World} {m : EscalationMatter} (by : Session) (name status : ℕ)
      → move_matter_status site w by name status ≡ ok (w', m)
      → Act site w w'
  closed :
      {w w' : World} {m : EscalationMatter} (by : Session) (name status : ℕ) (completed : Bool)
      → close_matter site w by name status completed ≡ ok (w', m)
      → Act site w w'
  taken :
      {w w' : World} {m : EscalationMatter} (by : Session) (name : ℕ)
      → settle_ownership site w by name ≡ ok (w', m)
      → Act site w w'
  rerouted :
      {w w' : World} {m : EscalationMatter} (by : Session) (name : ℕ) (wanted : List Wanted)
      → set_pathway site w by name wanted ≡ ok (w', m)
      → Act site w w'
  swept :
      {w w' : World} {names : List ℕ} (by : Session) (as_of : ℕ)
      → sweep_breaches site w by as_of ≡ ok (w', names)
      → Act site w w'

pub data Run (site : Site) : World → World → Type 0 where
  start : {w : World} → Run site w w
  next : {w v u : World} → Act site w v → Run site v u → Run site w u

approved_summary :
    (closures : List Closure) (name : ℕ) (c c' : Closure) (n : ℕ)
    → closure_of closures name ≡ some c
    → matter_of c' ≡ matter_of c
    → has_summary (some c') ≡ has_summary (some c)
    → has_summary (closure_of (write matter_of c' closures) n) ≡ has_summary (closure_of closures n)
unfolding closure_of
approved_summary closures name c c' n e same_matter same_summary =
    let named = same_matter ∙ read-name matter_of name closures e in
    elim (Bool-cases (matter_of c' == n)) [
      | inl is_it ↦
          let here = sym named ∙ (==_iff (matter_of c') n).0 is_it in
          let old = subst (λ (z : ℕ). read matter_of z closures ≡ some c) here e in
          ap has_summary
            (read-write_self matter_of c' n closures ((==_iff (matter_of c') n).0 is_it) old)
          ∙ same_summary
          ∙ sym (ap has_summary old)
      | inr other ↦ ap has_summary (
          read-write_other matter_of c' n closures
            (λ q. let q' = (==_iff (matter_of c') n).1 q in cc))
    ]

module _ (site : Site) (by_value : ByValue) where
  approve-AllSound :
      (w : World) (name : ℕ) (c e : Closure) (by : Session) {w' : World}
      → closure_of w.closures name ≡ some e
      → gist e ≡ gist c
      → approve site w c by ≡ ok w'
      → AllSound site by_value w
      → AllSound site by_value w'
  unfolding save_closure
  approve-AllSound w name c e by {w'} found same h all = elim (Bool-cases (is_some c.approved_by)) [
    | inl already ↦
        subst (λ (z : World). AllSound site by_value z)
          (ok-injective (sym (if-true _ _ already) ∙ h)) all
    | inr unapproved ↦
        let c' = approved_closure site w c by in
        let (checked, last) =
          >>-eq-ok (validate_closure_record c') _ (sym (if-false _ _ unapproved) ∙ h) in
        subst (λ (z : World). AllSound site by_value z) (ok-injective last)
          (λ m mem.
            with_closures site by_value w.closures _ m
              (approved_summary w.closures name e c' m.name found
                (ap (λ (g : ℕ × Option ℕ × Option ℕ). g.0) (sym same))
                (ap (λ (g : ℕ × Option ℕ × Option ℕ). is_some g.1) (sym same)))
              (all m mem))
  ]

  module _ (by_status : ByStatus site by_value) where
    pub Act-AllSound :
        {w w' : World} → Act site w w' → AllSound site by_value w → AllSound site by_value w'
    Act-AllSound {w} {w'} (raised by m0 h) all =
        insert-AllSound site by_value by_status w by m0 h all
    Act-AllSound {w} {w'} (moved by name status h) all =
        Saved-AllSound site by_value by_status w by true _
          ((move_matter_status-Moved site w by name status h).saved) all
    Act-AllSound {w} {w'} (closed by name status completed h) all =
        let c = close_matter-Closed site w by name status completed h in
        let between = Saved-AllSound site by_value by_status w by true _ c.saved all in
        let (e, found, alike) =
          Updated-closure (stored w c.saved.checked) (matter_named w c.before.name) c.saved.checked
            c.saved.update c.before.name c.closure c.recorded in
        approve-AllSound c.between c.before.name c.closure e by found alike c.approval between
    Act-AllSound {w} {w'} (taken by name h) all =
        Saved-AllSound site by_value by_status w by true _
          ((settle_ownership-Taken site w by name h).saved) all
    Act-AllSound {w} {w'} (rerouted by name wanted h) all =
        Saved-AllSound site by_value by_status w by true _
          ((set_pathway-Rerouted site w by name wanted h).saved) all
    Act-AllSound {w} {w'} (swept by as_of h) all =
        sweep_breaches-AllSound site by_value by_status w by as_of h all

-- Where the flags of a matter are configured by its status alone, any run of the actions leaves
-- every stored matter sound, if it was so before: each forum of a pathway stands once, is active and
-- has its columns up to date, the flags are those of the status, the fields that its template
-- requires have values, and a matter at rest has the evidence that its flags ask for.
pub Run-AllSound :
    (site : Site) (by_value : ByValue) {w w' : World}
    → ByStatus site by_value
    → Run site w w'
    → AllSound site by_value w
    → AllSound site by_value w'
Run-AllSound site by_value by_status start all = all
Run-AllSound site by_value by_status (next act run) all =
    Run-AllSound site by_value by_status run (Act-AllSound site by_value by_status act all)

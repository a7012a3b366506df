-- ===== src/Matters/Breach/Sound.antt =====
-- The sweep of the breaches keeps every stored matter sound.
use enterprise_management.Base.{
  ℕ, ◌≡◌, sym, ◌∙◌, subst, inl, inr, Option, none, some, true, List, [], ◌∷◌, ok, >>=-eq-ok,
  ok-injective, if-true, if-false, Bool-cases,
}
use enterprise_management.StateFlags.{ByValue}
use enterprise_management.Clocks.{Clock}
use enterprise_management.Clocks.Sweep.{sweep}
use enterprise_management.Matters.{EscalationMatter}
use enterprise_management.Matters.Site.{Site, Session}
use enterprise_management.Matters.Saving.{notify_forums, World, matter_named, save}
use enterprise_management.Matters.Saving.Stored.{save-Saved}
use enterprise_management.Matters.Saving.Sound.{
  stamped_IsSound, with_closures, IsSound, Saved-IsSound,
}
use enterprise_management.Matters.Saving.Marked.{has_summary_same, Updated-gist}
use enterprise_management.Matters.Saving.Kept.{Saved-AllSound, ByStatus, AllSound, written-AllSound}
use enterprise_management.Matters.Notices.{reached_forums}
use enterprise_management.Matters.Breach.{
  stored, notify_forums, breached, breached_at, breached_clocks, is_passed_over, handling,
  notify_breach, record_breach, escalate, escalate_if, escalate_all, sweep_breaches,
}

module _ (site : Site) (by_value : ByValue) (by_status : ByStatus site by_value) where
  record_breach-AllSound :
      (w : World) (by : Session) (m : EscalationMatter) (clock breached_on : ℕ) {w' : World}
      → record_breach site w by m clock breached_on ≡ ok w'
      → AllSound site by_value w
      → AllSound site by_value w'
  unfolding record_breach notify_breach notify_forums
  record_breach-AllSound w by m clock breached_on h all =
      let m0 : EscalationMatter = breached m clock breached_on in
      let ((w1, m1), saves, last) = >>=-eq-ok (save site w by true m0) _ h in
      let s = save-Saved site w by true m0 saves in
      let sound : IsSound site by_value w1.closures m1 =
        with_closures site by_value w.closures w1.closures m1
          (has_summary_same _ _
            (Updated-gist (stored w s.checked) (matter_named w m0.name) s.checked s.update m1.name))
          (Saved-IsSound site by_value by_status w by true m0 s) in
      let kept = Saved-AllSound site by_value by_status w by true m0 s all in
      subst (λ (z : World). AllSound site by_value z) (ok-injective last)
        (written-AllSound site by_value w1.closures _ w1.matters
          (stamped_IsSound site by_value (reached_forums site m1 by.today) by.now w1.closures m1
            sound)
          kept)

  escalate-AllSound :
      (w : World) (by : Session) (m : EscalationMatter) (c : Clock) {w' : World} {names : List ℕ}
      → escalate site w by m c ≡ ok (w', names)
      → AllSound site by_value w
      → AllSound site by_value w'
  unfolding escalate
  escalate-AllSound w by m c {w'} {names} h all = elim (Bool-cases (is_passed_over m c)) [
    | inl passed ↦
        subst (λ (z : World × List ℕ). AllSound site by_value z.0)
          (ok-injective (sym (if-true _ _ passed) ∙ h)) all
    | inr due ↦
        let (w1, records, last) =
          >>=-eq-ok (record_breach site w by m c.name (breached_at c)) (λ w1. ok (w1, m.name ∷ []))
            (sym (if-false _ _ due) ∙ h) in
        subst (λ (z : World × List ℕ). AllSound site by_value z.0) (ok-injective last)
          (record_breach-AllSound w by m c.name (breached_at c) records all)
  ]

  escalate_if-AllSound :
      (w : World) (by : Session) (o : Option EscalationMatter) (c : Clock) {w' : World}
      {names : List ℕ}
      → escalate_if site w by o c ≡ ok (w', names)
      → AllSound site by_value w
      → AllSound site by_value w'
  escalate_if-AllSound w by none c h all =
      subst (λ (z : World × List ℕ). AllSound site by_value z.0) (ok-injective h) all
  escalate_if-AllSound w by (some m) c h all = escalate-AllSound w by m c h all

  escalate_all-AllSound :
      (w : World) (by : Session) (clocks : List Clock) {w' : World} {names : List ℕ}
      → escalate_all site w by clocks ≡ ok (w', names)
      → AllSound site by_value w
      → AllSound site by_value w'
  unfolding escalate_all
  escalate_all-AllSound w by [] h all =
      subst (λ (z : World × List ℕ). AllSound site by_value z.0) (ok-injective h) all
  escalate_all-AllSound w by (c ∷ clocks) h all =
      let ((w1, first), e, h1) =
        >>=-eq-ok (escalate_if site w by (matter_named w c.subject_name) c) _ h in
      let ((w2, rest), e', last) = >>=-eq-ok (escalate_all site w1 by clocks) _ h1 in
      subst (λ (z : World × List ℕ). AllSound site by_value z.0) (ok-injective last)
        (escalate_all-AllSound w1 by clocks e'
          (escalate_if-AllSound w by (matter_named w c.subject_name) c e all))

  pub sweep_breaches-AllSound :
      (w : World) (by : Session) (as_of : ℕ) {w' : World} {names : List ℕ}
      → sweep_breaches site w by as_of ≡ ok (w', names)
      → AllSound site by_value w
      → AllSound site by_value w'
  unfolding sweep_breaches
  sweep_breaches-AllSound w by as_of h all =
      let ((swept, named), e, rest) =
        >>=-eq-ok (sweep (handling site w) w.clocks as_of by.now) _ h in
      escalate_all-AllSound (record w { clocks = swept }) by (breached_clocks swept.clocks) rest all

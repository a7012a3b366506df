-- ===== src/Matters/Breach/Recorded.antt =====
-- What the recording of one breach leaves: the matter is raised, and no other is touched.
use enterprise_management.Base.{
  ℕ, ◌+◌, ◌≡◌, ◌≢◌, ◌≤◌, refl, ap, sym, ◌∙◌, subst, Option, none, some, true, List, read, write,
  write-write, read-write_self, read-write_other, arith, ok, >>=-eq-ok, ok-injective,
}
use enterprise_management.Matters.{EscalationMatter}
use enterprise_management.Matters.Matrix.{Match}
use enterprise_management.Matters.Site.{Site, Session, Governance}
use enterprise_management.Matters.Pathway.{route, route_if, stamp_notified, raised_severity}
use enterprise_management.Matters.Pathway.Severity.{severity_level, routed_severity_mono}
use enterprise_management.Matters.Notices.{reached_forums}
use enterprise_management.Matters.Saving.{notify_forums, World, name_of, matter_named, saving, save}
use enterprise_management.Matters.Saving.Passed.{entered, validate-Passed}
use enterprise_management.Matters.Saving.Stored.{Saved, save-Saved}
use enterprise_management.Matters.Acting.Ownership.{Saved-own}
use enterprise_management.Matters.Breach.{breached, notify_breach, record_breach}

route_if-severity :
    (governance : Option Governance) (m : EscalationMatter) (found : Option Match)
    → m.auto_escalated ≡ true
    → severity_level m.severity ≤ severity_level (route_if governance m found).severity
unfolding route
route_if-severity governance m none h = omega arith
route_if-severity governance m (some found) h = routed_severity_mono m found.severity h

module _ (site : Site) (w : World) (by : Session) (m : EscalationMatter)
    (clock breached_on : ℕ) where
  -- The matter with its breach, as it is stored.
  pub record Raised (w' : World) : Type 0 where
    pub raised : EscalationMatter
    pub matters : w'.matters ≡ write name_of raised w.matters
    pub same_name : raised.name ≡ m.name
    pub counted : raised.breach_count ≡ m.breach_count + 1
    pub dated : raised.last_breach_on ≡ some breached_on
    pub flagged : raised.auto_escalated ≡ true
    pub severe : severity_level (raised_severity m.severity) ≤ severity_level raised.severity

  severity-Saved :
      {w' : World} {m' : EscalationMatter}
      → Saved site w by true (breached m clock breached_on) w' m'
      → severity_level (raised_severity m.severity) ≤ severity_level m'.severity
  severity-Saved {w'} {m'} s =
      let m0 : EscalationMatter = breached m clock breached_on in
      let p = validate-Passed site w.closures by (saving site w m0 true) m0 s.passed in
      let same =
        ap (λ (z : EscalationMatter). severity_level z.severity) s.update.same
        ∙ ap (λ (z : EscalationMatter). severity_level z.severity) p.kept in
      let routed = route_if-severity site.governance (entered m0) p.found refl in omega arith

  -- A breach that is recorded is stored on its matter: counted once more, dated, and with a severity
  -- no less than the next one up, whatever the matrix then proposes; no other matter changes.
  pub record_breach-Raised :
      {w' : World} → record_breach site w by m clock breached_on ≡ ok w' → Raised w'
  unfolding record_breach notify_breach notify_forums stamp_notified
  record_breach-Raised {w'} h =
      let m0 : EscalationMatter = breached m clock breached_on in
      let ((w1, m1), saves, last) = >>=-eq-ok (save site w by true m0) _ h in
      let s = save-Saved site w by true m0 saves in
      let own_ = Saved-own site w by true m0 s in
      let stamped : EscalationMatter = stamp_notified m1 (reached_forums site m1 by.today) by.now in
      subst (λ (z : World). Raised z) (ok-injective last)
        (record {
          raised = stamped;
          matters =
              ap (λ (z : List EscalationMatter). write name_of stamped z) s.matters
              ∙ write-write name_of stamped m1 w.matters refl;
          same_name = ap (λ (z : EscalationMatter). z.name) own_;
          counted = ap (λ (z : EscalationMatter). z.breach_count) own_;
          dated = ap (λ (z : EscalationMatter). z.last_breach_on) own_;
          flagged = ap (λ (z : EscalationMatter). z.auto_escalated) own_;
          severe = severity-Saved s;
        })

  module _ {w' : World} (r : Raised w') where
    pub Raised-self :
        {old : EscalationMatter}
        → matter_named w m.name ≡ some old
        → matter_named w' m.name ≡ some r.raised
    Raised-self e =
        ap (read name_of m.name) r.matters
        ∙ read-write_self name_of r.raised m.name w.matters r.same_name e

    pub Raised-other : (n : ℕ) → m.name ≢ n → matter_named w' n ≡ matter_named w n
    Raised-other n other =
        ap (read name_of n) r.matters
        ∙ read-write_other name_of r.raised n w.matters (λ e. other (sym r.same_name ∙ e))

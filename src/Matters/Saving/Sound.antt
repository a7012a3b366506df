-- ===== src/Matters/Saving/Sound.antt =====
-- The invariant of a stored matter, and that every save establishes it.
use enterprise_management.Base.{
  inr, inl, get, ℕ, ◌≡◌, refl, ap, sym, ◌∙◌, subst, Option, some, Bool, true, false, List, [], ◌∷◌,
  Memᴰ, mem-map, mem-any, is_some, is_before, read, not-false, Bool-cases, AreDistinct, All, ok,
}
use enterprise_management.StateFlags.{
  Flag, Flags, ByValue, FlagMap, get_flag_map, apply_state_flags,
}
use enterprise_management.StateFlags.Keeps.{apply_state_flags-single}
use enterprise_management.Escalation
use enterprise_management.Matters.{
  ForumLink, EscalationMatter, ImpactedEntity, matter_doc, matter_doctype, status_field, declares,
}
use enterprise_management.Matters.Template.{Template, scope_escalation}
use enterprise_management.Matters.Template.Conforms.{Conforms, Conforms-later}
use enterprise_management.Matters.Site.{Site, Session}
use enterprise_management.Matters.Pathway.{route_if}
use enterprise_management.Matters.Pathway.Rows.{forums_of, IsOpenTo, check_rows-AreDistinct}
use enterprise_management.Matters.Saving.{
  closure_of, matter_named, stored, has_summary, saving, World, Closure, resolved_entity,
  is_unknown_kind, apply_flags,
}
use enterprise_management.Matters.Saving.Gate.{IsSettled}
use enterprise_management.Matters.Saving.Passed.{
  Passed-own, entered, with_pathway, Passed, validate-Passed,
}
use enterprise_management.Matters.Saving.Stored.{with_clock, with_notes, Updated, Saved}
use enterprise_management.Matters.Pathway.Stamped.{forums_of-stamp, All-stamped, stamped-Conforms}
use enterprise_management.Matters.Pathway.{stamp_notified}

module _ (site : Site) (by_value : ByValue) where
  -- A matter as a save leaves it.
  pub record IsSound (closures : List Closure) (m : EscalationMatter) : Type 0 where
    pub kinds : (e : ImpactedEntity) → Memᴰ e m.impacted_entities → is_some e.entity_doctype ≡ true
    pub in_order : is_before m.escalation_date m.escalation_identification_date ≡ false
    pub distinct : AreDistinct (forums_of m.governance_forums)
    pub open_to : All (IsOpenTo site.governance) m.governance_forums
    pub configured :
        (flags : Flags) × (get m.status by_value ≡ some flags)
        × ((g : Flag) → declares g ≡ true → m.flags g ≡ flags g)
    pub templated :
        (name : ℕ)
        → m.escalation_template ≡ some name
        → (t : Template) × (read (λ (t : Template). t.name) name site.templates ≡ some t)
          × Conforms t scope_escalation m.severity m
    pub settled : IsSettled closures m

  pub IsSound-with_clock :
      (closures : List Closure) (m : EscalationMatter) (c : Option ℕ)
      → IsSound closures m
      → IsSound closures (with_clock m c)
  IsSound-with_clock closures m c s = record {
    kinds = s.kinds;
    in_order = s.in_order;
    distinct = s.distinct;
    open_to = s.open_to;
    configured = s.configured;
    templated = λ name e.
        let (t, found, conforms) = s.templated name e in
        (t, found, Conforms-later t scope_escalation m.severity m m.closed_on c conforms);
    settled = record {
      outcome = s.settled.outcome;
      responded = s.settled.responded;
      tracked = s.settled.tracked;
      dated = s.settled.dated;
    };
  }

  module _
      (by_status : get_flag_map site.timing.flag_rows matter_doctype
        ≡ (status_field, by_value) ∷ [])
      (closures : List Closure) (by : Session) (s : Escalation.Save) (m0 : EscalationMatter)
      {m : EscalationMatter} where
    kinds_known :
        Passed site closures by s m0 m
        → (e : ImpactedEntity) → Memᴰ e m.impacted_entities
        → is_some e.entity_doctype ≡ true
    kinds_known p e mem =
        let same =
          ap (λ (z : EscalationMatter). z.impacted_entities)
            (Passed-own site closures by s m0 m p) in
        let listed = subst (λ (z : List ImpactedEntity). Memᴰ e z) same mem in
        let (e0, given, resolved) = mem-map resolved_entity m0.impacted_entities listed in
        elim (Bool-cases (is_unknown_kind e0)) [
          | inl unknown ↦
              let h = mem-any is_unknown_kind given unknown in let h' = p.known_kinds in absurd (cc)
          | inr known ↦
              subst (λ (z : ImpactedEntity). is_some z.entity_doctype ≡ true) resolved
                (not-false _ known)
        ]

    flags_configured :
        Passed site closures by s m0 m
        → (flags : Flags) × (get m.status by_value ≡ some flags)
          × ((g : Flag) → declares g ≡ true → m.flags g ≡ flags g)
    unfolding apply_flags
    flags_configured p =
        let routed = route_if site.governance (entered m0) p.found in
        let (m4, e, same) = p.flagged in
        let status = ap (λ (z : EscalationMatter). z.status) p.kept in
        let (flags, at, set) =
          apply_state_flags-single matter_doc site.workflow_field status_field m.status by_value
            (with_pathway routed m.governance_forums) refl (ap some (sym status))
            (subst
              (λ (z : FlagMap).
                apply_state_flags matter_doc site.workflow_field z
                  (with_pathway routed m.governance_forums)
                ≡ ok m4)
              by_status e) in
        (flags, at, λ g d. sym (ap (λ (z : Flags). z g) same) ∙ set g d)

    pub Passed-IsSound : Passed site closures by s m0 m → IsSound closures m
    Passed-IsSound p =
        let (distinct, open_to) = check_rows-AreDistinct site.governance [] _ p.checked in
        let same = Passed-own site closures by s m0 m p in
        record {
          kinds = kinds_known p;
          in_order =
              ap
                (λ (z : EscalationMatter).
                  is_before z.escalation_date z.escalation_identification_date)
                same
              ∙ p.in_order;
          distinct = distinct;
          open_to = open_to;
          configured = flags_configured p;
          templated = p.templated;
          settled = p.settled;
        }

  pub stamped_IsSound :
      (reached : List ℕ) (now : ℕ) (closures : List Closure) (m : EscalationMatter)
      → IsSound closures m
      → IsSound closures (stamp_notified m reached now)
  unfolding stamp_notified
  stamped_IsSound reached now closures m s = record {
    kinds = s.kinds;
    in_order = s.in_order;
    distinct = subst AreDistinct (sym (forums_of-stamp reached now m.governance_forums)) s.distinct;
    open_to = All-stamped reached now site.governance m.governance_forums s.open_to;
    configured = s.configured;
    templated = λ name e.
        let (t, found, c) = s.templated name e in
        (t, found, stamped-Conforms reached now t m.severity m c);
    settled = record {
      outcome = s.settled.outcome;
      responded = s.settled.responded;
      tracked = s.settled.tracked;
      dated = s.settled.dated;
    };
  }

  -- The clock and the stamps of an update leave a matter sound.
  pub Updated-IsSound :
      (closures : List Closure) (w : World) (before : Option EscalationMatter)
      (m : EscalationMatter) {w' : World} {m' : EscalationMatter}
      → Updated w before m w' m'
      → IsSound closures m
      → IsSound closures m'
  unfolding stamp_notified
  Updated-IsSound closures w before m {w'} {m'} u sound =
      subst (λ (z : EscalationMatter). IsSound closures z) (sym u.same)
        (elim u.rows [
          | inl kept ↦
              subst (λ (z : List ForumLink). IsSound closures (with_notes m m'.sla_clock z))
                (sym kept) (IsSound-with_clock closures m m'.sla_clock sound)
          | inr (changed, reached, now, stamped) ↦
              subst (λ (z : List ForumLink). IsSound closures (with_notes m m'.sla_clock z))
                (sym stamped)
                (IsSound-with_clock closures (stamp_notified m reached now) m'.sla_clock
                  (stamped_IsSound reached now closures m sound))
        ])

  -- Every save that succeeds leaves a sound matter.
  pub Saved-IsSound :
      get_flag_map site.timing.flag_rows matter_doctype ≡ (status_field, by_value) ∷ []
      → (w : World) (by : Session) (ignore_permissions : Bool) (m0 : EscalationMatter)
      → {w' : World} {m : EscalationMatter} → Saved site w by ignore_permissions m0 w' m
      → IsSound w.closures m
  Saved-IsSound by_status w by ignore_permissions m0 s =
      Updated-IsSound w.closures (stored w s.checked) (matter_named w m0.name) s.checked s.update (
        Passed-IsSound by_status w.closures by (saving site w m0 ignore_permissions) m0
          (validate-Passed site w.closures by (saving site w m0 ignore_permissions) m0 s.passed))

  -- What the gate reads of the closures is whether a matter has one with a summary.
  pub with_closures :
      (closures closures' : List Closure) (m : EscalationMatter)
      → has_summary (closure_of closures' m.name) ≡ has_summary (closure_of closures m.name)
      → IsSound closures m
      → IsSound closures' m
  with_closures closures closures' m same s = record {
    kinds = s.kinds;
    in_order = s.in_order;
    distinct = s.distinct;
    open_to = s.open_to;
    configured = s.configured;
    templated = s.templated;
    settled = record {
      outcome = λ shut stated. same ∙ s.settled.outcome shut stated;
      responded = s.settled.responded;
      tracked = s.settled.tracked;
      dated = s.settled.dated;
    };
  }

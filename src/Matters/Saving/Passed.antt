-- ===== src/Matters/Saving/Passed.antt =====
-- The steps of a save that `validate` lets through, from the matter as it is given to the one stored.
use enterprise_management.Base.{
  dates_out_of_order, throw_if, ℕ, ◌≡◌, refl, ap, sym, ◌∙◌, subst, Option, none, some, Bool, false,
  List, [], map, any, read, arith, Result, ok, throw_if-eq-ok, >>=-eq-ok, ◌>>=◌, ◌>>◌, >>-eq-ok,
  ok-injective, unknown_entity_kind, is_before,
}
use enterprise_management.StateFlags.{get_flag_map}
use enterprise_management.StateFlags.Keeps.{apply_state_flags-keeps}
use enterprise_management.Escalation
use enterprise_management.Matters.{EscalationMatter, ForumLink, matter_doc, matter_doctype}
use enterprise_management.Matters.Matrix.{Match, match_rule}
use enterprise_management.Matters.Template.{
  Template, scope_escalation, apply_template, with_template,
}
use enterprise_management.Matters.Template.Conforms.{
  Conforms, Conforms-later, apply_template-named, apply_template-Obeys,
}
use enterprise_management.Matters.Site.{Governance, Site, Session}
use enterprise_management.Matters.Pathway.{
  route, route_if, apply_routing, check_rows, validate_pathway,
}
use enterprise_management.Matters.Saving.{
  Closure, is_unknown_kind, resolved_entity, resolve_impacted_entities, validate_dates,
  validate_closure, identified, move_view, apply_flags, validate,
}
use enterprise_management.Matters.Saving.Gate.{
  IsSettled, with_closed_on, validate_closure-IsSettled,
}

-- The matter that routing is given.
abbrev pub entered : EscalationMatter → EscalationMatter
entered m0 =
    let m = identified m0 in
    record m { impacted_entities = map resolved_entity m.impacted_entities }

abbrev pub with_pathway : EscalationMatter → List ForumLink → EscalationMatter
with_pathway m rows = record m { governance_forums = rows }

-- A matter but for its flags, its pathway, its template and its closing time.
abbrev pub core : EscalationMatter → EscalationMatter
core m = record m {
  flags = λ _. false;
  governance_forums = [];
  escalation_template = none;
  closed_on = none;
}

abbrev unflagged : EscalationMatter → EscalationMatter
unflagged m = record m { flags = λ _. false }

module _ (site : Site) (closures : List Closure) (by : Session) (s : Escalation.Save)
    (m0 : EscalationMatter) where
  -- What is known of a matter that a save has let through.
  pub record Passed (m : EscalationMatter) : Type 0 where
    pub found : Option Match
    pub known_kinds : any is_unknown_kind m0.impacted_entities ≡ false
    pub in_order : is_before m0.escalation_date m0.escalation_identification_date ≡ false
    pub fired : match_rule site.int_of site.matrices by.today (entered m0) ≡ ok found
    pub checked :
        check_rows site.governance []
          (route_if site.governance (entered m0) found).governance_forums
        ≡ ok m.governance_forums
    pub flagged :
        (m4 : EscalationMatter) × (apply_flags site
            (with_pathway (route_if site.governance (entered m0) found) m.governance_forums)
          ≡ ok m4)
        × (m4.flags ≡ m.flags)
    pub permitted :
        Escalation.validate_status_change site.transition_rules
          (move_view m)
          s
          (site.get_roles by.user)
        ≡ ok tt
    pub templated :
        (name : ℕ)
        → m.escalation_template ≡ some name
        → (t : Template) × (read (λ (t : Template). t.name) name site.templates ≡ some t)
          × Conforms t scope_escalation m.severity m
    pub settled : IsSettled closures m
    pub kept : core m ≡ core (route_if site.governance (entered m0) found)

  abbrev checking : EscalationMatter → ℕ → Result EscalationMatter
  checking m4 now = do
    m5 ← apply_template site.templates m4 scope_escalation m4.severity
    validate_closure closures m5 now

  -- The last two steps, of a matter whose flags are set.
  record Checked (m4 m : EscalationMatter) : Type 0 where
    templated :
        (name : ℕ)
        → m.escalation_template ≡ some name
        → (t : Template) × (read (λ (t : Template). t.name) name site.templates ≡ some t)
          × Conforms t scope_escalation m.severity m
    settled : IsSettled closures m
    same : m ≡ record m4 { escalation_template = m.escalation_template; closed_on = m.closed_on }

  checking-Checked : (m4 m : EscalationMatter) → checking m4 by.now ≡ ok m → Checked m4 m
  checking-Checked m4 m h =
      let (m5, e, h1) =
        >>=-eq-ok (apply_template site.templates m4 scope_escalation m4.severity)
          (λ m5. validate_closure closures m5 by.now) h in
      let (settled, closed) = validate_closure-IsSettled closures m5 by.now h1 in
      let named = apply_template-named site.templates m4 scope_escalation m4.severity e in
      let obeyed = apply_template-Obeys site.templates m4 scope_escalation m4.severity e in
      record {
        templated = λ name has.
            let (t, found, c) =
              obeyed name (ap (λ (z : EscalationMatter). z.escalation_template) closed ∙ has) in
            (
              t,
              found,
              subst (λ (z : EscalationMatter). Conforms t scope_escalation z.severity z) closed
                  (Conforms-later t scope_escalation m5.severity m5 m.closed_on m5.sla_clock (
                    subst (λ (z : Option ℕ). Conforms t scope_escalation z m5)
                      (ap (λ (z : EscalationMatter). z.severity) named) c)),
            );
        settled = settled;
        same =
            sym closed
            ∙ sym (ap (λ (z : EscalationMatter). with_closed_on z m.closed_on) named)
            ∙ ap (λ (o : Option ℕ). with_closed_on (with_template m4 o) m.closed_on)
                (ap (λ (z : EscalationMatter). z.escalation_template) named
                  ∙ ap (λ (z : EscalationMatter). z.escalation_template) closed);
      }

  resolved :
      {m1 : EscalationMatter}
      → resolve_impacted_entities (identified m0) ≡ ok m1
      → (any is_unknown_kind m0.impacted_entities ≡ false) × (entered m0 ≡ m1)
  unfolding resolve_impacted_entities
  resolved h =
      let (known, last) =
        throw_if-eq-ok (any is_unknown_kind m0.impacted_entities) unknown_entity_kind _ h in
      (known, ok-injective last)

  in_order_of :
      (m1 : EscalationMatter)
      → entered m0 ≡ m1
      → validate_dates m1 ≡ ok tt
      → is_before m0.escalation_date m0.escalation_identification_date ≡ false
  unfolding validate_dates
  in_order_of m1 e h =
      quiet (is_before m0.escalation_date m0.escalation_identification_date)
        (subst (λ (z : EscalationMatter). validate_dates z ≡ ok tt) (sym e) h)
    where
      quiet : (b : Bool) → throw_if b dates_out_of_order ≡ ok tt → b ≡ false
      quiet b h = ground arith

  routed :
      (m1 : EscalationMatter) {m2 : EscalationMatter}
      → entered m0 ≡ m1
      → apply_routing site by.today m1 ≡ ok m2
      → (found : Option Match) × (match_rule site.int_of site.matrices by.today (entered m0)
          ≡ ok found)
        × (route_if site.governance (entered m0) found ≡ m2)
  unfolding apply_routing
  routed m1 same h =
      let (found, e, last) =
        >>=-eq-ok (match_rule site.int_of site.matrices by.today m1)
          (λ found. ok (route_if site.governance m1 found)) h in
      (
        found,
        subst (λ (z : EscalationMatter). match_rule site.int_of site.matrices by.today z ≡ ok found)
            (sym same) e,
        ap (λ (z : EscalationMatter). route_if site.governance z found) same ∙ ok-injective last,
      )

  on_pathway :
      (m2 : EscalationMatter) {m3 : EscalationMatter}
      → validate_pathway site.governance m2 ≡ ok m3
      → (check_rows site.governance [] m2.governance_forums ≡ ok m3.governance_forums)
        × (with_pathway m2 m3.governance_forums ≡ m3)
  unfolding validate_pathway
  on_pathway m2 {m3} h =
      let (rows, e, last) =
        >>=-eq-ok (check_rows site.governance [] m2.governance_forums)
          (λ rows. ok (with_pathway m2 rows)) h in
      subst
        (λ (z : EscalationMatter).
          (check_rows site.governance [] m2.governance_forums ≡ ok z.governance_forums)
          × (with_pathway m2 z.governance_forums ≡ z))
        (ok-injective last) (e, refl)

  flags-keep :
      (m3 : EscalationMatter) {m4 : EscalationMatter}
      → apply_flags site m3 ≡ ok m4
      → unflagged m4 ≡ unflagged m3
  unfolding apply_flags
  flags-keep m3 h =
      apply_state_flags-keeps matter_doc unflagged (λ d f b. refl) site.workflow_field
        (get_flag_map site.timing.flag_rows matter_doctype) m3 h

  abbrev after_dates : EscalationMatter → Result EscalationMatter
  after_dates m1 = do
    m2 ← apply_routing site by.today m1
    m3 ← validate_pathway site.governance m2
    m4 ← apply_flags site m3
    Escalation.validate_status_change site.transition_rules (move_view m4) s
        (site.get_roles by.user)
    checking m4 by.now

  pub validate-Passed : {m : EscalationMatter} → validate site closures by s m0 ≡ ok m → Passed m
  unfolding validate
  validate-Passed {m} h =
      let (m1, e1, h1) =
        >>=-eq-ok (resolve_impacted_entities (identified m0))
          (λ m1. validate_dates m1 >> after_dates m1) h in
      let (known, enters) = resolved e1 in
      let (dates, h2) = >>-eq-ok (validate_dates m1) (after_dates m1) h1 in
      let (m2, e2, h3) = >>=-eq-ok (apply_routing site by.today m1) _ h2 in
      let (found, fired, routes) = routed m1 enters e2 in
      let (m3, e3, h4) = >>=-eq-ok (validate_pathway site.governance m2) _ h3 in
      let (rows_checked, same_rows) = on_pathway m2 e3 in
      let (m4, e4, h5) = >>=-eq-ok (apply_flags site m3) _ h4 in
      let (permitted, h6) =
        >>-eq-ok
          (Escalation.validate_status_change site.transition_rules (move_view m4) s
            (site.get_roles by.user))
          _ h5 in
      let c = checking-Checked m4 m h6 in
      let quiet = flags-keep m3 e4 in
      let rows4 = ap (λ (z : EscalationMatter). z.governance_forums) quiet in
      let rows = ap (λ (z : EscalationMatter). z.governance_forums) c.same in
      let all_rows = rows ∙ rows4 in
      record {
        found = found;
        known_kinds = known;
        in_order = in_order_of m1 enters dates;
        fired = fired;
        checked =
            ap (λ (z : EscalationMatter). check_rows site.governance [] z.governance_forums) routes
            ∙ rows_checked
            ∙ ap ok (sym all_rows);
        flagged = (
          m4,
          ap (λ (z : EscalationMatter). apply_flags site (with_pathway z m.governance_forums))
                routes
              ∙ ap (λ (z : List ForumLink). apply_flags site (with_pathway m2 z)) all_rows
              ∙ ap (λ (z : EscalationMatter). apply_flags site z) same_rows
              ∙ e4,
          sym (ap (λ (z : EscalationMatter). z.flags) c.same),
        );
        permitted =
            subst
              (λ (z : EscalationMatter).
                Escalation.validate_status_change site.transition_rules (move_view z) s
                  (site.get_roles by.user)
                ≡ ok tt)
              (sym c.same) permitted;
        templated = c.templated;
        settled = c.settled;
        kept = ap core c.same ∙ ap core quiet ∙ sym (ap core same_rows) ∙ sym (ap core routes);
      }

-- A matter but for what the checks of a save derive.
abbrev pub own : EscalationMatter → EscalationMatter
own m = record m {
  flags = λ _. false;
  governance_forums = [];
  escalation_template = none;
  closed_on = none;
  escalation_matrix = none;
  matched_matrix_rule = none;
  severity = none;
  sla_definition = none;
  assigned_role = none;
  assigned_group = none;
  assignment_rule = none;
}

pub own-route_if :
    (governance : Option Governance) (m : EscalationMatter) (found : Option Match)
    → own (route_if governance m found) ≡ own m
unfolding route
own-route_if governance m none = refl
own-route_if governance m (some found) = refl

-- A save changes no other column, but for the identifier and the kinds of the entities.
pub Passed-own :
    (site : Site) (closures : List Closure) (by : Session) (s : Escalation.Save)
    (m0 m : EscalationMatter)
    → Passed site closures by s m0 m
    → own m ≡ own (entered m0)
Passed-own site closures by s m0 m p =
    ap own p.kept ∙ own-route_if site.governance (entered m0) p.found

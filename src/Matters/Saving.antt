-- ===== src/Matters/Saving.antt =====
-- The controller of an Escalation Matter, with the closure gate and the clock of
-- escalation/resolution.py: what a save checks, derives and stores.
pub mod Gate
pub mod Passed
pub mod Stored
pub mod Marked
pub mod Sound
pub mod Timed
pub mod Handed
pub mod Kept
use mathlib.Core.Option
use enterprise_management.Base.{
  bool_eq, ℕ, Option, none, some, Bool, true, false, not, ◌&&◌, ◌||◌, List, [], ◌∷◌, ◌++◌, map,
  if◌then◌else◌, ◌==◌, is_some, is_before, or_else, any, filter, head?, is_empty, read, write,
  Result, ok, throw_if, unknown_entity_kind, dates_out_of_order, outcome_required,
  template_incomplete, external_reference_required, closure_criteria, ◌>>=◌, ◌>>◌,
}
use enterprise_management.StateFlags.{
  is_open, requires_statement, is_committable, get_flag_map, apply_state_flags,
}
use enterprise_management.Clocks
use enterprise_management.Clocks.{Clock, Definition, clock_named, start_clock, stop_clock}
use enterprise_management.Clocks.Sync.{is_state_measure}
use enterprise_management.Escalation
use enterprise_management.Matters.{EscalationMatter, ImpactedEntity, matter_doctype, matter_doc}
use enterprise_management.Matters.Template.{scope_escalation, apply_template}
use enterprise_management.Matters.Site.{Site, Session}
use enterprise_management.Matters.Queue.{is_waiting, queue_recipients}
use enterprise_management.Matters.Pathway.{apply_routing, validate_pathway, stamp_notified}
use enterprise_management.Matters.Notices.{breach_recipients, reached_forums}

-- A Closure Criterion.
pub record Criterion : Type 0 where
  pub required : Bool
  pub met : Bool

-- An Escalation Closure.
pub record Closure : Type 0 where
  pub escalation_matter : ℕ
  pub closure_type : ℕ
  pub closure_summary : Option ℕ
  pub criteria_met : List Criterion
  pub external_reference : Option ℕ
  pub sensitive : Bool
  pub approved_by : Option ℕ
  pub approved_on : Option ℕ

-- An attempt to send a notice about a matter.
pub data MatterNotice : Type 0 where
  matter_queued matter_breached material_entity_impact : ℕ → List ℕ → MatterNotice

-- An Action Plan or a Risk Acceptance of a matter, of which only the sensitivity is read.
pub record Dependent : Type 0 where
  pub name : ℕ
  pub escalation_matter : ℕ
  pub sensitive : Bool

pub record World : Type 0 where
  pub matters : List EscalationMatter
  pub closures : List Closure
  pub dependents : List Dependent
  pub clocks : Clocks.Store
  pub notices : List MatterNotice

-- ENTITY_DOCTYPES; 61 is Legal Entity, 62 Material Entity and 65 Organization Unit.
abbrev pub entity_doctypes : ℕ → Option ℕ
entity_doctypes kind =
    if kind == 61
    then some 61
    else if kind == 62
    then some 62
    else if kind == 63 || kind == 64
    then some 65
    else none

abbrev pub resolved_entity : ImpactedEntity → ImpactedEntity
resolved_entity e = record e { entity_doctype = entity_doctypes e.entity_type }

abbrev pub is_unknown_kind : ImpactedEntity → Bool
is_unknown_kind e = not (is_some (entity_doctypes e.entity_type))

unfoldable pub resolve_impacted_entities : EscalationMatter → Result EscalationMatter
resolve_impacted_entities m = do
  throw_if (any is_unknown_kind m.impacted_entities) unknown_entity_kind
  ok (record m { impacted_entities = map resolved_entity m.impacted_entities })

unfoldable pub validate_dates : EscalationMatter → Result (Unit {0})
validate_dates m =
    throw_if (is_before m.escalation_date m.escalation_identification_date) dates_out_of_order

abbrev pub matter_of : Closure → ℕ
matter_of c = c.escalation_matter

unfoldable pub closure_of : List Closure → ℕ → Option Closure
closure_of closures matter = read matter_of matter closures

abbrev pub has_summary : Option Closure → Bool
has_summary none = false
has_summary (some c) = is_some c.closure_summary

unfoldable pub validate_closure : List Closure → EscalationMatter → ℕ → Result EscalationMatter
validate_closure closures m now =
    if m.flags is_open then ok (record m { closed_on = none }) else (do
      throw_if (m.flags requires_statement && not (has_summary (closure_of closures m.name)))
          outcome_required
      throw_if (not m.response_template_completed) template_incomplete
      throw_if (m.flags is_committable && not (is_some m.external_reference))
          external_reference_required
      ok (record m { closed_on = some (or_else m.closed_on now) }))

-- "Transferred Externally"
abbrev pub transferred_externally : ℕ
transferred_externally = 3

unfoldable pub validate_closure_record : Closure → Result (Unit {0})
validate_closure_record c = do
  throw_if (any (λ (r : Criterion). r.required && not r.met) c.criteria_met) closure_criteria
  throw_if (c.closure_type == transferred_externally && not (is_some c.external_reference))
      external_reference_required

-- What transitions.py reads of a matter.
abbrev pub move_view : EscalationMatter → Escalation.Matter
move_view m = record {
  name = m.name;
  escalation_type = m.escalation_type;
  severity = m.severity;
  status = m.status;
}

abbrev pub identified : EscalationMatter → EscalationMatter
identified m = record m { escalation_id = some (or_else m.escalation_id m.name) }

module _ (site : Site) where
  unfoldable pub apply_flags : EscalationMatter → Result EscalationMatter
  apply_flags m =
      apply_state_flags matter_doc site.workflow_field
        (get_flag_map site.timing.flag_rows matter_doctype) m

  -- `validate`
  unfoldable pub validate :
      List Closure → Session → Escalation.Save → EscalationMatter → Result EscalationMatter
  validate closures by s m0 = do
    m1 ← resolve_impacted_entities (identified m0)
    validate_dates m1
    m2 ← apply_routing site by.today m1
    m3 ← validate_pathway site.governance m2
    m4 ← apply_flags m3
    Escalation.validate_status_change site.transition_rules (move_view m4) s
        (site.get_roles by.user)
    m5 ← apply_template site.templates m4 scope_escalation m4.severity
    validate_closure closures m5 by.now

abbrev pub name_of : EscalationMatter → ℕ
name_of m = m.name

abbrev pub matter_named : World → ℕ → Option EscalationMatter
matter_named w name = read name_of name w.matters

abbrev pub stored : World → EscalationMatter → World
stored w m = record w { matters = write name_of m w.matters }

-- `db.set_value` of the column `sla_clock`.
abbrev pub timed_by : World → EscalationMatter → ℕ → World × EscalationMatter
timed_by w m clock = let m' = record m { sla_clock = some clock } in (stored w m', m')

abbrev pub is_overdue : EscalationMatter → ℕ → Clock → Bool
is_overdue m definition c =
    Clocks.times definition matter_doctype m.name c
    && is_some c.breached_on
    && not (is_some c.stopped_on)

abbrev pub is_status_driven : List Definition → ℕ → Bool
is_status_driven definitions n =
    any (λ (d : Definition). d.name == n && is_state_measure d.measure) definitions

abbrev pub is_own_clock : List Definition → EscalationMatter → Clock → Bool
is_own_clock definitions m c =
    c.subject_doctype == matter_doctype
    && c.subject_name == m.name
    && c.open_flag
    && not (is_status_driven definitions c.sla_definition)

-- The loop that stops the clocks of these names.
unfoldable pub stop_clocks : Clocks.Site → Clocks.Store → List ℕ → ℕ → ℕ → Result Clocks.Store
stop_clocks timing st [] stopped_on now = ok st
stop_clocks timing st (n ∷ names) stopped_on now = do
  c ← Clocks.need (clock_named n st.clocks)
  (st', c') ← stop_clock timing st c (some stopped_on) now
  stop_clocks timing st' names stopped_on now

module _ (timing : Clocks.Site) where
  unfoldable pub keep_timing :
      World → EscalationMatter → ℕ → Option Clock → ℕ → Result (World × EscalationMatter)
  keep_timing w m definition (some c) now = ok (timed_by w m c.name)
  keep_timing w m definition none now = do
    (st, c) ← start_clock timing w.clocks definition matter_doctype m.name m.opened_on now
    ok (timed_by (record w { clocks = st }) m c.name)

  unfoldable pub stop_timing : World → EscalationMatter → ℕ → Result (World × EscalationMatter)
  unfolding stop_clocks
  stop_timing w m now = do
    let own = filter (is_own_clock timing.definitions m) w.clocks.clocks
    st ← stop_clocks timing w.clocks (map (λ (c : Clock). c.name) own) (or_else m.closed_on now) now
    ok (record w { clocks = st }, m)

  unfoldable pub sync_under :
      World → EscalationMatter → Option ℕ → ℕ → Result (World × EscalationMatter)
  unfolding keep_timing stop_timing
  sync_under w m none now = ok (w, m)
  sync_under w m (some definition) now =
      if m.flags is_open
      then keep_timing w m definition (head? (filter (is_overdue m definition) w.clocks.clocks)) now
      else stop_timing w m now

  unfoldable pub sync_clock : World → EscalationMatter → ℕ → Result (World × EscalationMatter)
  unfolding sync_under
  sync_clock w m now = sync_under w m m.sla_definition now

abbrev pub told : World → MatterNotice → World
told w n = record w { notices = w.notices ++ n ∷ [] }

abbrev pub optional_eq : Option ℕ → Option ℕ → Bool
optional_eq none none = true
optional_eq (some a) (some b) = a == b
optional_eq _ _ = false

abbrev pub queue_changed : Option EscalationMatter → EscalationMatter → Bool
queue_changed none m = true
queue_changed (some old) m =
    not (optional_eq old.assigned_role m.assigned_role)
    || not (optional_eq old.assigned_group m.assigned_group)

-- `before_insert`
abbrev pub before_insert : EscalationMatter → ℕ → EscalationMatter
before_insert m now = record m { opened_on = some (or_else m.opened_on now) }

abbrev pub marked : ℕ → Bool → Closure → Closure
marked name sensitive c =
    if c.escalation_matter == name then record c { sensitive = sensitive } else c

abbrev pub marked_dependent : ℕ → Bool → Dependent → Dependent
marked_dependent name sensitive d =
    if d.escalation_matter == name then record d { sensitive = sensitive } else d

-- sensitivity.py `propagate`
abbrev pub propagate : World → ℕ → Bool → World
propagate w name sensitive = record w {
  closures = map (marked name sensitive) w.closures;
  dependents = map (marked_dependent name sensitive) w.dependents;
}

abbrev pub sensitivity_changed : Option EscalationMatter → EscalationMatter → Bool
sensitivity_changed none m = true
sensitivity_changed (some old) m = not (bool_eq old.sensitive m.sensitive)

abbrev pub impact_changed : Option EscalationMatter → EscalationMatter → Bool
impact_changed none m = m.material_entity_impact
impact_changed (some old) m =
    m.material_entity_impact && not (bool_eq old.material_entity_impact m.material_entity_impact)

module _ (site : Site) where
  -- `assignment.on_update`
  unfoldable pub tell_queue : World → Option EscalationMatter → EscalationMatter → World
  tell_queue w before m =
      let recipients = queue_recipients site m in
      if queue_changed before m && is_waiting site m && not (is_empty recipients)
      then told w (matter_queued m.name recipients)
      else w

  -- A notice to the people of the pathway, and the stamps of the forums that it reached.
  unfoldable pub notify_forums :
      World → EscalationMatter → MatterNotice → Session → World × EscalationMatter
  notify_forums w m n by =
      let m' = stamp_notified m (reached_forums site m by.today) by.now in
      (told (stored w m') n, m')

  unfoldable pub notify_impact : World → EscalationMatter → Session → World × EscalationMatter
  unfolding notify_forums
  notify_impact w m by =
      notify_forums w m (material_entity_impact m.name (breach_recipients site m by.today)) by

  unfoldable pub on_update :
      World
      → Option EscalationMatter
      → EscalationMatter
      → Session
      → Result (World × EscalationMatter)
  unfolding sync_clock tell_queue notify_impact
  on_update w before m by = do
    (w1, m1) ← sync_clock site.timing w m by.now
    let w2 = tell_queue w1 before m1
    let w3 = if sensitivity_changed before m then propagate w2 m.name m.sensitive else w2
    ok (if impact_changed before m then notify_impact w3 m1 by else (w3, m1))

  abbrev pub saving : World → EscalationMatter → Bool → Escalation.Save
  saving w m ignore_permissions = record {
    is_new = not (is_some (matter_named w m.name));
    ignore_permissions = ignore_permissions;
    before = Option.map (λ (old : EscalationMatter). old.status) (matter_named w m.name);
  }

  -- `matter.save()` of a matter that the table has.
  unfoldable pub save :
      World → Session → Bool → EscalationMatter → Result (World × EscalationMatter)
  unfolding validate on_update
  save w by ignore_permissions m = do
    m' ← validate site w.closures by (saving w m ignore_permissions) m
    on_update (stored w m') (matter_named w m.name) m' by

  -- `matter.insert()`, of a name that the table has not.
  unfoldable pub insert : World → Session → EscalationMatter → Result (World × EscalationMatter)
  unfolding validate on_update
  insert w by m = do
    m' ← validate site w.closures by (saving w m false) (before_insert m by.now)
    on_update (record w { matters = w.matters ++ m' ∷ [] }) none m' by

-- ===== src/Retention/Lawful.antt =====
-- What a disposal event may look like, and that saving one keeps it for the whole table.
use enterprise_management.Base.{
  write, ℕ, ◌≡◌, ◌≢◌, ap, sym, subst, some, Bool, true, false, not, ◌&&◌, Memᴰ, arith, ok,
  >>=-eq-ok, throw_if-eq-ok, ok-injective, is_some, inl, inr, write-mem, find-mem, ◌==◌,
  no_named_approver,
}
use enterprise_management.StateFlags.{Flag, apply_state_flags, get_flag_map}
use enterprise_management.StateFlags.Keeps.{apply_state_flags-keeps}
use enterprise_management.Retention.{
  Registry, Event, dispose_of, event_doc, set_flag, disposition_event,
}
use enterprise_management.Retention.Events.{validate_event, save_event, event_named}
use enterprise_management.Retention.Disposal.{is_permanent}

-- Two different people decided an approved event; a carried out one was approved as a disposal; and
-- a disposal is never one that the class keeps permanently.
pub record IsLawful (e : Event) : Type 0 where
  pub two_people :
      (a : ℕ)
      → e.approved_by ≡ some a
      → (p : ℕ) × (e.proposed_by ≡ some p) × (p ≢ a) × (is_some e.decision ≡ true)
  pub carried_out :
      is_some e.executed_on ≡ true → (is_some e.approved_by ≡ true) × (e.decision ≡ some dispose_of)
  pub not_permanent : e.decision ≡ some dispose_of → is_permanent e.action ≡ false

abbrev pub AllLawful : Registry → Type 0
AllLawful r = (e : Event) → Memᴰ e r.events → IsLawful e

-- An event without its flags.
abbrev pub body_of : Event → Event
body_of e = record e { open_flag = false; editable = false }

body_of-blind : (e : Event) (f : Flag) (b : Bool) → body_of (set_flag e f b) ≡ body_of e
body_of-blind e f b = ground arith

IsLawful-body : (e : Event) → IsLawful e → IsLawful (body_of e)
IsLawful-body e l = record {
  two_people = l.two_people;
  carried_out = l.carried_out;
  not_permanent = l.not_permanent;
}

body-IsLawful : (e : Event) → IsLawful (body_of e) → IsLawful e
body-IsLawful e l = record {
  two_people = l.two_people;
  carried_out = l.carried_out;
  not_permanent = l.not_permanent;
}

module _ (r : Registry) where
  pub body-validate_event :
      (e : Event) {f : Event} → validate_event r e ≡ ok f → body_of f ≡ body_of e
  unfolding validate_event
  body-validate_event e {f} h =
      let plan = get_flag_map r.flag_rows disposition_event in
      let (g, flagged, rest) =
        >>=-eq-ok (apply_state_flags event_doc r.workflow_field plan e) _ h in
      let (named, last) =
        throw_if-eq-ok (is_some g.executed_on && not (is_some g.approved_by)) no_named_approver
          (ok g) rest in
      rw (← ok-injective last)
        (apply_state_flags-keeps event_doc body_of body_of-blind r.workflow_field plan e flagged)

  pub validate_event-IsLawful :
      (e : Event) {f : Event} → validate_event r e ≡ ok f → IsLawful e → IsLawful f
  validate_event-IsLawful e {f} h l =
      body-IsLawful f (subst IsLawful (sym (body-validate_event e h)) (IsLawful-body e l))

  pub save_event-saved :
      (e : Event) {r' : Registry} {f : Event}
      → save_event r e ≡ ok (r', f)
      → (validate_event r e ≡ ok f)
        × (record r { events = write (λ (d : Event). d.name) f r.events } ≡ r')
  unfolding save_event
  save_event-saved e {r'} {f} h =
      let (g, checked, last) = >>=-eq-ok (validate_event r e) _ h in
      let same : g ≡ f = ap (λ (p : Registry × Event). p.1) (ok-injective last) in
      (rw same at checked, rw (← same) (ap (λ (p : Registry × Event). p.0) (ok-injective last)))

  -- A lawful event saved among lawful events leaves them lawful.
  pub save_event-AllLawful :
      (e : Event) {r' : Registry} {f : Event}
      → save_event r e ≡ ok (r', f)
      → AllLawful r
      → IsLawful e
      → AllLawful r' × IsLawful f
  save_event-AllLawful e {r'} {f} h all l =
      let (checked, table) = save_event-saved e h in
      let saved = validate_event-IsLawful e checked l in
      (
        rw (← table) (λ x m. elim (write-mem (λ (d : Event). d.name) f r.events m) [
          | inl same ↦ subst IsLawful (sym same) saved
          | inr (old, other) ↦ all x old
        ]),
        saved,
      )

  pub read-IsLawful :
      (event : ℕ) {e : Event} → AllLawful r → event_named event r ≡ some e → IsLawful e
  read-IsLawful event {e} all h = all e (find-mem (λ (d : Event). d.name == event) r.events h).0

-- ===== src/Retention/Holding.antt =====
-- A scheduled event that the sweep holds, and that is then let go.
use enterprise_management.Base.{
  get, ℕ, ◌≡◌, refl, ap, sym, ◌∙◌, none, some, true, false, not, ◌||◌, [], ◌∷◌, ◌++◌, arith, ok,
  is_some, AreDistinct, map, write, read-write_self, read-name, write-write_back,
}
use enterprise_management.StateFlags.{
  Flags, ByValue, is_open, is_editable, set_flags, get_flag_map, flag_fields, apply_state_flags,
  apply_fields, in_application_order,
}
use enterprise_management.StateFlags.Applied.{apply_field-configured}
use enterprise_management.Retention.{
  Registry, Event, Archive, Hold, scheduled, held, status_field, disposition_event, event_doc,
  active_legal_hold,
}
use enterprise_management.Retention.Events.{event_named, archive_named, validate_event, save_event}
use enterprise_management.Retention.Sweep.{Flagged, hold_over, hold_event, hold_named, unhold}

-- The event as it is while a hold keeps it.
abbrev pub while_held : Event → Flags → ℕ → Event
while_held e flags hold = record e {
  status = held;
  held_by_legal_hold = some hold;
  open_flag = flags is_open;
  editable = flags is_editable;
}

module _ (r : Registry) (by_value : ByValue)
    (by_status : get_flag_map r.flag_rows disposition_event ≡ (status_field, by_value) ∷ []) where
  flagged :
      (e : Event) (flags : Flags)
      → set_flags event_doc flag_fields flags e
        ≡ record e { open_flag = flags is_open; editable = flags is_editable }
  unfolding set_flags
  flagged e flags = refl

  validate_event-configured :
      (e : Event) (flags : Flags)
      → get e.status by_value ≡ some flags
      → is_some e.executed_on ≡ false
      → validate_event r e
        ≡ ok (record e { open_flag = flags is_open; editable = flags is_editable })
  unfolding validate_event apply_state_flags apply_fields in_application_order
  validate_event-configured e flags at not_done = rw by_status (
      rw
        (
          apply_field-configured event_doc status_field e.status by_value flags e refl refl at,
          flagged e flags,
        )
        (rw not_done refl))

module _ (r : Registry) (by_value : ByValue)
    (by_status : get_flag_map r.flag_rows disposition_event ≡ (status_field, by_value) ∷ []) where
  abbrev during : Event → Registry
  during f = record r { events = write (λ (d : Event). d.name) f r.events }

  module _ (out : Flagged) (event : ℕ) (e : Event) (on kept : Flags)
      (found : event_named event r ≡ some e) (not_done : is_some e.executed_on ≡ false) where
    hold_named-holds :
        (hold : ℕ)
        → get held by_value ≡ some kept
        → hold_named r out event hold
          ≡ ok (
            during (while_held e kept hold),
            record out { newly_held = out.newly_held ++ e.name ∷ [] },
          )
    unfolding hold_named save_event
    hold_named-holds hold at = rw found (
        rw
          (validate_event-configured r by_value by_status
            (record e { status = held; held_by_legal_hold = some hold }) kept at not_done)
          refl)

    unhold-restores :
        (hold : ℕ)
        → get scheduled by_value ≡ some on
        → AreDistinct (map (λ (d : Event). d.name) r.events)
        → e ≡ record e {
          status = scheduled;
          held_by_legal_hold = none;
          open_flag = on is_open;
          editable = on is_editable;
        }
        → unhold (during (while_held e kept hold)) event ≡ ok r
    unfolding unhold save_event
    unhold-restores hold at distinct plain =
        let f = while_held e kept hold in
        let named : e.name ≡ event = read-name (λ (d : Event). d.name) event r.events found in
        let again : event_named event (during f) ≡ some f =
          read-write_self (λ (d : Event). d.name) f event r.events named found in
        let let_go : Event = record f { status = scheduled; held_by_legal_hold = none } in
        let checked =
          validate_event-configured (during f) by_value by_status let_go on at not_done
          ∙ ap ok (sym plain) in
        let back : write (λ (d : Event). d.name) e (write (λ (d : Event). d.name) f r.events)
            ≡ r.events =
          write-write_back (λ (d : Event). d.name) e f r.events (rw (← named) at found) refl
            distinct in
        rw again (rw checked (ap (λ events. ok (record r { events = events })) back))

  module _ (out : Flagged) {e : Event} {a : Archive} {h : Hold} (on kept : Flags) where
    -- Where the flags of events are configured by `status` alone, and the names of the events are
    -- distinct: when the sweep comes to an open event that is scheduled, as a save leaves it, that
    -- nothing holds and that was not carried out, and its record is under an active legal hold, it
    -- holds the event; and letting the event go then gives back the tables as they were.
    pub unhold-hold_event :
        event_named e.name r ≡ some e
        → archive_named e.archive_record r ≡ some a
        → active_legal_hold r a.subject_doctype a.subject_name ≡ some h
        → get held by_value ≡ some kept
        → get scheduled by_value ≡ some on
        → on is_open ≡ true
        → is_some e.executed_on ≡ false
        → AreDistinct (map (λ (d : Event). d.name) r.events)
        → e ≡ record e {
          status = scheduled;
          held_by_legal_hold = none;
          open_flag = on is_open;
          editable = on is_editable;
        }
        → (r' : Registry) × (out' : Flagged) × (hold_event r out e ≡ ok (r', out'))
          × (event_named e.name r' ≡ some (while_held e kept h.name))
          × (unhold r' e.name ≡ ok r)
    unfolding hold_event
    unhold-hold_event found archived under at_held at_scheduled opens not_done distinct plain =
        let f = while_held e kept h.name in
        let is_open_now : e.open_flag ≡ true = ap (λ (d : Event). d.open_flag) plain ∙ opens in
        let free : is_some e.held_by_legal_hold ≡ false =
          ap (λ (d : Event). is_some d.held_by_legal_hold) plain in
        let looks : (not e.open_flag || is_some e.held_by_legal_hold) ≡ false = ground arith in
        let over : hold_over r (archive_named e.archive_record r) ≡ some h =
          ap (hold_over r) archived ∙ under in
        (
          during f,
          record out { newly_held = out.newly_held ++ e.name ∷ [] },
          rw (looks, over) (hold_named-holds out e.name e on kept found not_done h.name at_held),
          read-write_self (λ (d : Event). d.name) f e.name r.events refl found,
          unhold-restores out e.name e on kept found not_done h.name at_scheduled distinct plain,
        )

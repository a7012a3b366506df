-- ===== src/Retention/Steps.antt =====
-- Runs of the operations on disposals, from any user and in any order.
use enterprise_management.Base.{
  ℕ, ◌≡◌, refl, ap, sym, subst, ◌∙◌, Option, none, some, true, not, ◌||◌, List, [], ◌∷◌, arith,
  Result, ok, err, >>=-eq-ok, >>-eq-ok, throw_if-eq-ok, refuse_if-eq-ok, ok-injective, is_some, inl,
  inr, mem-append, mem-single, demand-eq-ok, read-name, not-false, read, some-injective, get,
  Bool-cases,
}
use enterprise_management.Retention.{
  scheduled, held, Registry, Event, Archive, RetentionClass, Hold, Choice, dispose_of,
  active_legal_hold, Action,
}
use enterprise_management.Retention.Events.{
  new_event, need, event_named, archive_named, schedule_disposition, validate_event, save_event,
  chose, refuse_held, execute_disposition, disposition_pending,
}
use enterprise_management.Retention.Sweep.{
  Flagged, flag_archive, flag_archives, scheduled_or_left, hold_named, hold_by, hold_event,
  hold_events, hold_groups, unhold, unhold_all, rows_of,
}
use enterprise_management.Retention.Disposal.{require_manager, guard_hold, carry_out, signed}
use enterprise_management.Retention.Lawful.{
  IsLawful, AllLawful, save_event-AllLawful, read-IsLawful, validate_event-IsLawful,
}
use enterprise_management.Retention.TwoPeople.{execute-IsLawful, signed-AllLawful}

chose-eq : (o : Option Choice) → chose o dispose_of ≡ true → o ≡ some dispose_of
chose-eq o h = ground arith

refuse_held-free : (o : Option Hold) (a : Archive) → refuse_held o a ≡ ok tt → o ≡ none
refuse_held-free none a h = refl
refuse_held-free (some x) a h = cc

-- What a disposal that was carried out has passed.
pub record Passed (r : Registry) (e : Event) : Type 0 where
  pub archive : Archive
  pub archived : archive_named e.archive_record r ≡ some archive
  pub opened : e.open_flag ≡ true
  pub chosen : e.decision ≡ some dispose_of
  pub free : active_legal_hold r archive.subject_doctype archive.subject_name ≡ none
  pub named : is_some e.approved_by ≡ true

-- A new event is undecided.
new_event-IsLawful :
    (n : ℕ) (a : Archive) (action : Action) (h : Option Hold) → IsLawful (new_event n a action h)
new_event-IsLawful n a action h = record {
  two_people = λ a e. absurd (cc);
  carried_out = λ e. absurd (cc);
  not_permanent = λ e. absurd (cc);
}

-- A change of what an event is held by keeps it lawful.
rehold-IsLawful :
    (e : Event) (status : ℕ) (hold : Option ℕ)
    → IsLawful e
    → IsLawful (record e { status = status; held_by_legal_hold = hold })
rehold-IsLawful e status hold l = record {
  two_people = l.two_people;
  carried_out = l.carried_out;
  not_permanent = l.not_permanent;
}

module _ (r : Registry) where
  pub carry_out-Passed :
      (me : ℕ) (roles : List ℕ) (event : ℕ) (evidence : Option ℕ) (now : ℕ) {r' : Registry}
      → carry_out r me roles event evidence now ≡ ok r'
      → (e : Event) × (event_named event r ≡ some e)
        × Passed r e
        × ((q : Registry × Event) × (execute_disposition r e.name evidence now ≡ ok q)
            × (signed q.0 q.1 me ≡ r'))
  unfolding carry_out guard_hold
  carry_out-Passed me roles event evidence now h =
      let (may, h1) = >>-eq-ok (require_manager me roles) _ h in
      let (e, found, h2) = >>=-eq-ok (need (event_named event r)) _ h1 in
      let (a, archived, h3) = >>=-eq-ok (need (archive_named e.archive_record r)) _ h2 in
      let (opened, h4) = throw_if-eq-ok (not e.open_flag) _ _ h3 in
      let (chosen, h5) = throw_if-eq-ok (not (chose e.decision dispose_of)) _ _ h4 in
      let (free, h6) = >>-eq-ok (guard_hold r a) _ h5 in
      let (named, h7) = refuse_if-eq-ok (not (is_some e.approved_by)) _ _ h6 in
      let (q, executing, last) = >>=-eq-ok (execute_disposition r e.name evidence now) _ h7 in
      (
        e,
        demand-eq-ok _ _ found,
        record {
          archive = a;
          archived = demand-eq-ok _ _ archived;
          opened = not-false e.open_flag opened;
          chosen = chose-eq e.decision (not-false _ chosen);
          free = refuse_held-free _ a free;
          named = not-false _ named;
        },
        (q, executing, ok-injective last),
      )

  execute-AllLawful :
      (event : ℕ) (evidence : Option ℕ) (now : ℕ) {e : Event} {q : Registry × Event}
      → AllLawful r
      → event_named event r ≡ some e
      → e.decision ≡ some dispose_of
      → execute_disposition r event evidence now ≡ ok q
      → AllLawful q.0 × IsLawful q.1
  unfolding execute_disposition
  execute-AllLawful event evidence now {e} all found chosen h =
      let (f, again, h1) = >>=-eq-ok (need (event_named event r)) _ h in
      let same : e ≡ f = some-injective (sym found ∙ demand-eq-ok _ _ again) in
      let (a, archived, h2) = >>=-eq-ok (need (archive_named f.archive_record r)) _ h1 in
      let (free, h3) =
        >>-eq-ok (refuse_held (active_legal_hold r a.subject_doctype a.subject_name) a) _ h2 in
      let (named, saving) = refuse_if-eq-ok (not (is_some f.approved_by)) _ _ h3 in
      save_event-AllLawful r _ saving all (
        execute-IsLawful r all f evidence now _ (read-IsLawful r event all (demand-eq-ok _ _ again))
          (not-false _ named) (ap (λ (x : Event). x.decision) (sym same) ∙ chosen))

  pub carry_out-AllLawful :
      (me : ℕ) (roles : List ℕ) (event : ℕ) (evidence : Option ℕ) (now : ℕ) {r' : Registry}
      → carry_out r me roles event evidence now ≡ ok r'
      → AllLawful r
      → AllLawful r'
  carry_out-AllLawful me roles event evidence now h all =
      let (e, found, passed, (q, executing, last)) =
        carry_out-Passed me roles event evidence now h in
      let named = read-name (λ (x : Event). x.name) event r.events found in
      let (all', l) =
        execute-AllLawful e.name evidence now {e = e} all (rw named found) passed.chosen
          executing in
      rw (← last) (signed-AllLawful q.0 all' q.1 me l)

  schedule-AllLawful :
      (archive : ℕ) {q : Registry × Event}
      → schedule_disposition r archive ≡ ok q
      → AllLawful r
      → AllLawful q.0
  unfolding schedule_disposition
  schedule-AllLawful archive h all =
      let (a, found, h1) = >>=-eq-ok (need (archive_named archive r)) _ h in
      let (c, known, h2) =
        >>=-eq-ok (need (read (λ (c : RetentionClass). c.name) a.retention_class r.classes)) _ h1 in
      let blank =
        new_event (r.fresh r.events) a c.disposition_action
          (active_legal_hold r a.subject_doctype a.subject_name) in
      let (e, checked, last) = >>=-eq-ok (validate_event r blank) _ h2 in
      rw (← ap (λ (p : Registry × Event). p.0) (ok-injective last)) (λ x m.
        elim (mem-append r.events (e ∷ []) m) [
          | inl old ↦ all x old
          | inr new ↦
              subst IsLawful (sym (mem-single new))
                (validate_event-IsLawful r blank checked (new_event-IsLawful _ a _ _))
        ])

  scheduled-AllLawful :
      (step : Result (Registry × Event)) (out : Flagged)
      → ((q : Registry × Event) → step ≡ ok q → AllLawful q.0)
      → AllLawful r
      → AllLawful (scheduled_or_left step r out).0
  scheduled-AllLawful (err fault) out h all = all
  scheduled-AllLawful (ok q) out h all = h q refl

  flag_archive-AllLawful :
      (groups : List (ℕ × List Event)) (as_of : ℕ) (out : Flagged) (a : Archive)
      → AllLawful r
      → AllLawful (flag_archive groups as_of r out a).0
  unfolding flag_archive
  flag_archive-AllLawful groups as_of out a all =
      elim (Bool-cases (disposition_pending (rows_of (get a.name groups)) as_of)) [
        | inl pending ↦ rw pending all
        | inr clear ↦ rw clear (
            scheduled-AllLawful (schedule_disposition r a.name) out
              (λ q h. schedule-AllLawful a.name h all) all)
      ]

  rehold-AllLawful :
      (event status : ℕ) (hold : Option ℕ) {e : Event} {q : Registry × Event}
      → event_named event r ≡ some e
      → save_event r (record e { status = status; held_by_legal_hold = hold }) ≡ ok q
      → AllLawful r
      → AllLawful q.0
  rehold-AllLawful event status hold {e} found saving all =
      (save_event-AllLawful r _ saving all
        (rehold-IsLawful e status hold (read-IsLawful r event all found))).0

  hold_by-AllLawful :
      (o : Option Hold) (out : Flagged) (event : ℕ) {q : Registry × Flagged}
      → hold_by o r out event ≡ ok q
      → AllLawful r
      → AllLawful q.0
  unfolding hold_named
  hold_by-AllLawful none out event h all =
      rw (← ap (λ (p : Registry × Flagged). p.0) (ok-injective h)) all
  hold_by-AllLawful (some x) out event h all =
      let (e, found, h1) = >>=-eq-ok (need (event_named event r)) _ h in
      let (q, saving, last) = >>=-eq-ok (save_event r _) _ h1 in
      rw (← ap (λ (p : Registry × Flagged). p.0) (ok-injective last))
        (rehold-AllLawful event held (some x.name) (demand-eq-ok _ _ found) saving all)

  hold_event-AllLawful :
      (out : Flagged) (e : Event) {q : Registry × Flagged}
      → hold_event r out e ≡ ok q
      → AllLawful r
      → AllLawful q.0
  unfolding hold_event
  hold_event-AllLawful out e h all =
      elim (Bool-cases (not e.open_flag || is_some e.held_by_legal_hold)) [
        | inl skip ↦ rw (← ap (λ (p : Registry × Flagged). p.0) (ok-injective (rw skip at h))) all
        | inr look ↦ hold_by-AllLawful _ out e.name (rw look at h) all
      ]

  unhold-AllLawful :
      (event : ℕ) {r' : Registry} → unhold r event ≡ ok r' → AllLawful r → AllLawful r'
  unfolding unhold
  unhold-AllLawful event h all =
      let (e, found, h1) = >>=-eq-ok (need (event_named event r)) _ h in
      let (q, saving, last) = >>=-eq-ok (save_event r _) _ h1 in
      rw (← ok-injective last)
        (rehold-AllLawful event scheduled none (demand-eq-ok _ _ found) saving all)

pub flag_archives-AllLawful :
    (groups : List (ℕ × List Event)) (as_of : ℕ) (archives : List Archive) (r : Registry)
    (out : Flagged)
    → AllLawful r
    → AllLawful (flag_archives groups as_of archives (r, out)).0
unfolding flag_archives
flag_archives-AllLawful groups as_of [] r out all = all
flag_archives-AllLawful groups as_of (a ∷ archives) r out all =
    flag_archives-AllLawful groups as_of archives _ _
      (flag_archive-AllLawful r groups as_of out a all)

hold_events-AllLawful :
    (r : Registry) (out : Flagged) (events : List Event) {q : Registry × Flagged}
    → hold_events r out events ≡ ok q
    → AllLawful r
    → AllLawful q.0
unfolding hold_events
hold_events-AllLawful r out [] h all =
    rw (← ap (λ (p : Registry × Flagged). p.0) (ok-injective h)) all
hold_events-AllLawful r out (e ∷ events) h all =
    let (q, step, rest) = >>=-eq-ok (hold_event r out e) _ h in
    hold_events-AllLawful q.0 q.1 events rest (hold_event-AllLawful r out e step all)

pub hold_groups-AllLawful :
    (r : Registry) (out : Flagged) (groups : List (ℕ × List Event)) {q : Registry × Flagged}
    → hold_groups r out groups ≡ ok q
    → AllLawful r
    → AllLawful q.0
unfolding hold_groups
hold_groups-AllLawful r out [] h all =
    rw (← ap (λ (p : Registry × Flagged). p.0) (ok-injective h)) all
hold_groups-AllLawful r out ((archive, rows) ∷ groups) h all =
    let (q, step, rest) = >>=-eq-ok (hold_events r out rows) _ h in
    hold_groups-AllLawful q.0 q.1 groups rest (hold_events-AllLawful r out rows step all)

pub unhold_all-AllLawful :
    (r : Registry) (events : List ℕ) {r' : Registry}
    → unhold_all r events ≡ ok r'
    → AllLawful r
    → AllLawful r'
unfolding unhold_all
unhold_all-AllLawful r [] h all = rw (← ok-injective h) all
unhold_all-AllLawful r (event ∷ events) h all =
    let (q, step, rest) = >>=-eq-ok (unhold r event) _ h in
    unhold_all-AllLawful q events rest (unhold-AllLawful r event step all)

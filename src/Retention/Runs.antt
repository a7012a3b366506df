-- ===== src/Retention/Runs.antt =====
-- Runs of the operations, and what holds when a disposal is carried out in one.
use enterprise_management.Base.{
  [], sort_by, filter, map, write, holds_name, ℕ, ◌≡◌, ◌≢◌, ap, Option, some, Bool, false, List, ok,
  >>=-eq-ok, >>-eq-ok, throw_if-eq-ok, is_some, not, read, inl, inr, Option-cases,
}
use enterprise_management.Retention.{
  Registry, Event, Archive, Assignment, RetentionClass, Hold, Choice,
}
use enterprise_management.Retention.Events.{need, event_named, validate_hold}
use enterprise_management.Retention.Sweep.{
  grouped, due_order, is_due, flag_archives, Flagged, flag_due_for_disposal, release_hold,
}
use enterprise_management.Retention.Disposal.{
  require_manager, is_permanent, propose_disposition, send_back_disposition, approve_disposition_of,
  carry_out, release_legal_hold,
}
use enterprise_management.Retention.Lawful.{AllLawful, read-IsLawful}
use enterprise_management.Retention.TwoPeople.{
  propose-AllLawful, send_back-AllLawful, approve-AllLawful,
}
use enterprise_management.Retention.Steps.{
  Passed, carry_out-Passed, carry_out-AllLawful, hold_groups-AllLawful, flag_archives-AllLawful,
  unhold_all-AllLawful,
}

-- The operations that write disposal events, by any user with any arguments, and any change of the
-- tables that they read.
pub data Step (r : Registry) : Registry → Type 0 where
  proposes :
      (me : ℕ) (roles : List ℕ) (event : ℕ) (decision : Option Choice) (reason until : Option ℕ)
      (today now : ℕ) (r' : Registry) (f : Event)
      → propose_disposition r me roles event decision reason until today now ≡ ok (r', f)
      → Step r r'
  sends_back :
      (me : ℕ) (roles : List ℕ) (event : ℕ) (text : Option ℕ) (r' : Registry) (f : Event)
      → send_back_disposition r me roles event text ≡ ok (r', f)
      → Step r r'
  approves :
      (me : ℕ) (roles : List ℕ) (event : ℕ) (text : Option ℕ) (now : ℕ) (r' : Registry) (f : Event)
      → approve_disposition_of r me roles event text now ≡ ok (r', f)
      → Step r r'
  carries_out :
      (me : ℕ) (roles : List ℕ) (event : ℕ) (evidence : Option ℕ) (now : ℕ) (r' : Registry)
      → carry_out r me roles event evidence now ≡ ok r'
      → Step r r'
  flags_due :
      (as_of : ℕ) (r' : Registry) (out : Flagged)
      → flag_due_for_disposal r as_of ≡ ok (r', out)
      → Step r r'
  releases :
      (me : ℕ) (roles : List ℕ) (may_write : Bool) (hold : ℕ) (reason : Option ℕ) (today : ℕ)
      (r' : Registry)
      → release_legal_hold r me roles may_write hold reason today ≡ ok r'
      → Step r r'
  changes_tables :
      (holds : List Hold) (assignments : List Assignment) (classes : List RetentionClass)
      (archives : List Archive)
      → Step r (record r {
        holds = holds;
        assignments = assignments;
        classes = classes;
        archives = archives;
      })

pub data Run : Registry → Registry → Type 0 where
  stays : (r : Registry) → Run r r
  goes : (r r' r'' : Registry) → Step r r' → Run r' r'' → Run r r''

flag_due-AllLawful :
    (r : Registry) (as_of : ℕ) {q : Registry × Flagged}
    → flag_due_for_disposal r as_of ≡ ok q
    → AllLawful r
    → AllLawful q.0
unfolding flag_due_for_disposal
flag_due-AllLawful r as_of h all =
    let groups = grouped r.events [] in
    let due = sort_by due_order (filter (is_due as_of) r.archives) in
    let nothing : Flagged = record { newly_scheduled = []; newly_held = [] } in
    let flagged = flag_archives groups as_of due (r, nothing) in
    hold_groups-AllLawful flagged.0 flagged.1 groups h
      (flag_archives-AllLawful groups as_of due r nothing all)

release-AllLawful :
    (r : Registry) (me : ℕ) (roles : List ℕ) (may_write : Bool) (hold : ℕ) (reason : Option ℕ)
    (today : ℕ) {r' : Registry}
    → release_legal_hold r me roles may_write hold reason today ≡ ok r'
    → AllLawful r
    → AllLawful r'
unfolding release_legal_hold release_hold
release-AllLawful r me roles may_write hold reason today h all =
    let (may, h1) = >>-eq-ok (require_manager me roles) _ h in
    let (write_ok, h2) = throw_if-eq-ok (not may_write) _ _ h1 in
    let (x, found, h3) = >>=-eq-ok (need (read (λ (h : Hold). h.name) hold r.holds)) _ h2 in
    let (given, h4) = throw_if-eq-ok (not (is_some reason)) _ _ h3 in
    let (y, again, h5) = >>=-eq-ok (need (read (λ (h : Hold). h.name) hold r.holds)) _ h4 in
    let (g, checked, h6) = >>=-eq-ok (validate_hold _ today) _ h5 in
    unhold_all-AllLawful (record r { holds = write (λ (h : Hold). h.name) g r.holds })
      (map (λ (e : Event). e.name) (filter (λ e. holds_name e.held_by_legal_hold hold) r.events)) h6
      all

Step-AllLawful : (r r' : Registry) → Step r r' → AllLawful r → AllLawful r'
Step-AllLawful r r' (Step.proposes me roles ev d reason until today now _ f h) all =
    propose-AllLawful r all me roles ev d reason until today now h
Step-AllLawful r r' (Step.sends_back me roles ev text _ f h) all =
    send_back-AllLawful r all me roles ev text h
Step-AllLawful r r' (Step.approves me roles ev text now _ f h) all =
    approve-AllLawful r all me roles ev text now h
Step-AllLawful r r' (Step.carries_out me roles ev evidence now _ h) all =
    carry_out-AllLawful r me roles ev evidence now h all
Step-AllLawful r r' (Step.flags_due as_of _ out h) all = flag_due-AllLawful r as_of h all
Step-AllLawful r r' (Step.releases me roles may_write hold reason today _ h) all =
    release-AllLawful r me roles may_write hold reason today h all
Step-AllLawful r r' (Step.changes_tables holds assignments classes archives) all = all

-- After any run from a table of lawful events, every event that is approved was proposed by another
-- user and has a decision, every event that was carried out is approved and decided as a disposal,
-- and no event decided as a disposal is of an action that archives permanently.
pub Run-AllLawful : (r r' : Registry) → Run r r' → AllLawful r → AllLawful r'
Run-AllLawful r r' (Run.stays _) all = all
Run-AllLawful r r' (Run.goes _ m _ step run) all =
    Run-AllLawful m r' run (Step-AllLawful r m step all)

-- When, after a run from a table of lawful events, a disposal is carried out, its event is open
-- and decided as a disposal, the record is under no active legal hold, the action does not
-- archive permanently, and the event was proposed by one user and approved by another.
carry_out-TwoPeople :
    (r r' : Registry) (me : ℕ) (roles : List ℕ) (event : ℕ) (evidence : Option ℕ) (now : ℕ)
    {r'' : Registry}
    → AllLawful r
    → Run r r'
    → carry_out r' me roles event evidence now ≡ ok r''
    → (e : Event) × (event_named event r' ≡ some e)
      × Passed r' e
      × (is_permanent e.action ≡ false)
      × ((a : ℕ) × (p : ℕ) × (e.approved_by ≡ some a) × (e.proposed_by ≡ some p) × (p ≢ a))
carry_out-TwoPeople r r' me roles event evidence now all run h =
    let (e, found, passed, done) = carry_out-Passed r' me roles event evidence now h in
    let l = read-IsLawful r' event (Run-AllLawful r r' run all) found in
    elim (Option-cases e.approved_by) [
      | inl nobody ↦ absurd (cc (ap is_some nobody, passed.named))
      | inr (a, named) ↦
          let (p, by, apart, decided) = l.two_people a named in
          (e, found, passed, l.not_permanent passed.chosen, (a, p, named, by, apart))
    ]

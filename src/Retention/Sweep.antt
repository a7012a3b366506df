-- ===== src/Retention/Sweep.antt =====
-- consilium_core/retention.py `flag_due_for_disposal` and `release_hold`: the daily sweep, and the end
-- of a hold.
use enterprise_management.Base.{
  get, put, ℕ, Option, none, some, Bool, not, ◌||◌, List, [], ◌∷◌, ◌++◌, if◌then◌else◌, leb,
  is_some, is_after, holds_name, or_else, filter, map, sort_by, read, write, Result, ok, err, ◌>>=◌,
}
use enterprise_management.Retention.{
  Registry, Archive, Event, Hold, scheduled, held, active_legal_hold,
}
use enterprise_management.Retention.Events.{
  need, event_named, archive_named, disposition_pending, schedule_disposition, save_event,
  validate_hold,
}

abbrev pub rows_of : Option (List Event) → List Event
rows_of none = []
rows_of (some rows) = rows

-- `events_by_archive`: the events of each archive, in the order of their first.
unfoldable pub grouped : List Event → List (ℕ × List Event) → List (ℕ × List Event)
grouped [] groups = groups
grouped (e ∷ events) groups =
    grouped events (put e.archive_record (rows_of (get e.archive_record groups) ++ e ∷ []) groups)

-- The comparison reads a missing date as one in the past.
abbrev pub is_due : ℕ → Archive → Bool
is_due as_of a = not (is_after a.disposition_due_on as_of)

abbrev pub due_order : Archive → Archive → Bool
due_order a b = leb (or_else a.disposition_due_on 0) (or_else b.disposition_due_on 0)

-- The lists that the sweep returns.
pub record Flagged : Type 0 where
  pub newly_scheduled : List ℕ
  pub newly_held : List ℕ

abbrev pub with_event : Event → Flagged → Flagged
with_event e out =
    if is_some e.held_by_legal_hold
    then record out { newly_held = out.newly_held ++ e.name ∷ [] }
    else record out { newly_scheduled = out.newly_scheduled ++ e.name ∷ [] }

-- An archive that cannot be scheduled is left, and the others go on.
abbrev pub scheduled_or_left : Result (Registry × Event) → Registry → Flagged → Registry × Flagged
scheduled_or_left (err fault) r out = (r, out)
scheduled_or_left (ok (r', e)) r out = (r', with_event e out)

unfoldable pub flag_archive :
    List (ℕ × List Event) → ℕ → Registry → Flagged → Archive → Registry × Flagged
flag_archive groups as_of r out a =
    if disposition_pending (rows_of (get a.name groups)) as_of
    then (r, out)
    else scheduled_or_left (schedule_disposition r a.name) r out

unfoldable pub flag_archives :
    List (ℕ × List Event) → ℕ → List Archive → Registry × Flagged → Registry × Flagged
unfolding flag_archive
flag_archives groups as_of [] (r, out) = (r, out)
flag_archives groups as_of (a ∷ archives) (r, out) =
    flag_archives groups as_of archives (flag_archive groups as_of r out a)

abbrev pub hold_over : Registry → Option Archive → Option Hold
hold_over r none = none
hold_over r (some a) = active_legal_hold r a.subject_doctype a.subject_name

unfoldable pub hold_named : Registry → Flagged → ℕ → ℕ → Result (Registry × Flagged)
hold_named r out event hold = do
  e ← need (event_named event r)
  (r', e') ← save_event r (record e { status = held; held_by_legal_hold = some hold })
  ok (r', record out { newly_held = out.newly_held ++ e'.name ∷ [] })

abbrev pub hold_by : Option Hold → Registry → Flagged → ℕ → Result (Registry × Flagged)
hold_by none r out event = ok (r, out)
hold_by (some h) r out event = hold_named r out event h.name

unfoldable pub hold_event : Registry → Flagged → Event → Result (Registry × Flagged)
unfolding hold_named
hold_event r out e =
    if not e.open_flag || is_some e.held_by_legal_hold
    then ok (r, out)
    else hold_by (hold_over r (archive_named e.archive_record r)) r out e.name

unfoldable pub hold_events : Registry → Flagged → List Event → Result (Registry × Flagged)
hold_events r out [] = ok (r, out)
hold_events r out (e ∷ events) = do (r', out') ← hold_event r out e; hold_events r' out' events

unfoldable pub hold_groups :
    Registry → Flagged → List (ℕ × List Event) → Result (Registry × Flagged)
unfolding hold_events
hold_groups r out [] = ok (r, out)
hold_groups r out ((archive, rows) ∷ groups) = do
  (r', out') ← hold_events r out rows
  hold_groups r' out' groups

unfoldable pub flag_due_for_disposal : Registry → ℕ → Result (Registry × Flagged)
unfolding flag_archives hold_groups
flag_due_for_disposal r as_of =
    let groups = grouped r.events [] in
    let (r', out) =
      flag_archives groups as_of (sort_by due_order (filter (is_due as_of) r.archives))
        (r, record { newly_scheduled = []; newly_held = [] }) in
    hold_groups r' out groups

abbrev pub released_on : Option ℕ → ℕ → Option ℕ
released_on none today = some today
released_on (some day) today = some day

unfoldable pub unhold : Registry → ℕ → Result Registry
unhold r event = do
  e ← need (event_named event r)
  (r', e') ← save_event r (record e { status = scheduled; held_by_legal_hold = none })
  ok r'

unfoldable pub unhold_all : Registry → List ℕ → Result Registry
unfolding unhold
unhold_all r [] = ok r
unhold_all r (event ∷ events) = do r' ← unhold r event; unhold_all r' events

unfoldable pub release_hold : Registry → ℕ → ℕ → Result Registry
unfolding unhold_all
release_hold r hold today = do
  h ← need (read (λ (h : Hold). h.name) hold r.holds)
  g ← validate_hold (record h { released_on = released_on h.released_on today }) today
  let r' = record r { holds = write (λ (h : Hold). h.name) g r.holds }
  unhold_all r'
      (map (λ (e : Event). e.name) (filter (λ e. holds_name e.held_by_legal_hold hold) r.events))

-- ===== src/Clocks/Sync.antt =====
-- consilium_core/sla.py `sync_subject` and `_live_update`: clocks made to match the history, hourly
-- and on each save.
pub mod Live
use enterprise_management.Base.{
  err, is_empty, ℕ, ◌-◌, Option, none, some, Bool, true, false, not, ◌&&◌, ◌||◌, List, [], ◌∷◌,
  ◌++◌, map, or_else, if◌then◌else◌, ◌==◌, leb, is_some, same, contains, find, filter, sort_by,
  is_before, Result, ok, ◌>>=◌,
}
use enterprise_management.Clocks.{
  time_to_first_action, Definition, Measure, time_in_state, Clock, Site, Store, need, clock_named,
  cancelled, times, is_open_clock, new_clock, save_clock, start_clock, stop_clock,
}
use enterprise_management.Clocks.History.{
  Interval, LogRow, Subject, state_intervals, first_action_interval, acted, Changes,
}

-- MATCH_TOLERANCE, five minutes.
abbrev pub match_tolerance : ℕ
match_tolerance = 300000000

abbrev pub is_near : ℕ → ℕ → Bool
is_near a b = leb (a - b) match_tolerance && leb (b - a) match_tolerance

abbrev pub filters_hold : Site → Option ℕ → ℕ → Bool
filters_hold site none name = true
filters_hold site (some filters) name = site.satisfies filters name

unfoldable pub applies_to : Site → Definition → ℕ → ℕ → Bool
applies_to site d doctype name =
    d.target_doctype == doctype && filters_hold site d.applies_when name

abbrev pub measured : Measure → List LogRow → Definition → Subject → ℕ → List Interval
measured time_in_state log d s now = state_intervals log d s now
measured _ log d s now = first_action_interval log d s

-- `e is None or e >= defined_on`
abbrev pub is_current : ℕ → Interval → Bool
is_current defined_on (start, end) = not (is_before end defined_on)

-- An interval with the clock that it is matched with.
abbrev pub Match : Type 0
Match = Interval × Option Clock

abbrev pub used_after : Option Clock → List ℕ → List ℕ
used_after none used = used
used_after (some c) used = c.name ∷ used

-- The first clock that no earlier interval took and that started near the interval's start.
unfoldable pub match_clock : List Clock → List ℕ → ℕ → Option Clock
match_clock clocks used start =
    find (λ c. not (contains used c.name) && is_near c.started_on start) clocks

unfoldable pub claimed_clocks : List Clock → List Interval → List ℕ → List Match
unfolding match_clock
claimed_clocks clocks [] used = []
claimed_clocks clocks ((start, end) ∷ intervals) used =
    let found = match_clock clocks used start in
    ((start, end), found) ∷ claimed_clocks clocks intervals (used_after found used)

abbrev pub used_by : List Match → List ℕ
used_by [] = []
used_by ((interval, found) ∷ rest) = used_after found (used_by rest)

unfoldable pub cancel_clock : Site → Store → ℕ → ℕ → Result (Store × Clock)
cancel_clock site st name now = do
  c ← need (clock_named name st.clocks)
  save_clock site st (record c { status = cancelled; stopped_on = some now })

unfoldable pub cancel_stale : Site → Store → List Clock → List ℕ → ℕ → Result (Store × List ℕ)
unfolding cancel_clock
cancel_stale site st [] used now = ok (st, [])
cancel_stale site st (c ∷ clocks) used now =
    if c.open_flag && not (contains used c.name)
    then (do
      (st', d) ← cancel_clock site st c.name now
      (st'', touched) ← cancel_stale site st' clocks used now
      ok (st'', c.name ∷ touched))
    else cancel_stale site st clocks used now

abbrev pub stop_at : Site → Store → Clock → Option ℕ → ℕ → Result (Store × Clock)
stop_at site st c none now = ok (st, c)
stop_at site st c (some end) now = stop_clock site st c (some end) now

-- One interval: a clock is made where none matches, and a running one is stopped at the end.
unfoldable pub settle_one : Site → Store → Definition → ℕ → ℕ → Match → ℕ → Result (Store × List ℕ)
settle_one site st d doctype name ((start, end), none) now = do
  (st', c) ← new_clock site st d doctype name start
  (st'', c') ← stop_at site st' c end now
  ok (st'', c.name ∷ [])
settle_one site st d doctype name ((start, end), some c) now =
    if is_some end && not (is_some c.stopped_on)
    then (do
      doc ← need (clock_named c.name st.clocks)
      (st', c') ← stop_at site st doc end now
      ok (st', c.name ∷ []))
    else ok (st, [])

unfoldable pub settle : Site → Store → Definition → ℕ → ℕ → List Match → ℕ → Result (Store × List ℕ)
unfolding settle_one
settle site st d doctype name [] now = ok (st, [])
settle site st d doctype name (m ∷ ms) now = do
  (st', touched) ← settle_one site st d doctype name m now
  (st'', more) ← settle site st' d doctype name ms now
  ok (st'', touched ++ more)

unfoldable pub sync_intervals :
    Site → Store → Definition → ℕ → List Interval → ℕ → Result (Store × List ℕ)
unfolding claimed_clocks cancel_stale settle
sync_intervals site st d name intervals now = do
  let clocks =
      sort_by (λ a b. leb a.started_on b.started_on)
        (filter (times d.name d.target_doctype name) st.clocks)
  let matched = claimed_clocks clocks intervals []
  (st', stale) ← cancel_stale site st clocks (used_by matched) now
  (st'', touched) ← settle site st' d d.target_doctype name matched now
  ok (st'', stale ++ touched)

-- `record` is the measured record, where it exists.
unfoldable pub sync_subject :
    Site → Store → List LogRow → Definition → ℕ → Option Subject → ℕ → Result (Store × List ℕ)
unfolding applies_to sync_intervals
sync_subject site st log d name none now = ok (st, [])
sync_subject site st log d name (some s) now =
    if applies_to site d d.target_doctype name
    then sync_intervals site st d name
        (filter (is_current d.creation) (measured d.measure log d s now)) now
    else ok (st, [])

-- What a save tells: the fields of the saved record, and the state field's value before the save,
-- where the record is not new. `differs` is the framework's comparison of the two documents.
pub record Saved : Type 0 where
  pub doctype : ℕ
  pub name : ℕ
  pub creation : ℕ
  pub modified : ℕ
  pub value : Option ℕ
  pub before : Option (Option ℕ)
  pub differs : Bool

abbrev pub was_in : Option (Option ℕ) → Option ℕ → Bool
was_in none wanted = false
was_in (some value) wanted = same value wanted

unfoldable pub stop_found : Site → Store → Option Clock → ℕ → ℕ → Result Store
stop_found site st none at_time now = ok st
stop_found site st (some c) at_time now = do
  (st', c') ← stop_clock site st c (some at_time) now
  ok st'

unfoldable pub stop_open : Site → Store → Definition → Saved → ℕ → Result Store
stop_open site st d s now =
    stop_found site st (find (is_open_clock d.name s.doctype s.name) st.clocks) s.modified now

unfoldable pub start_at : Site → Store → Definition → Saved → ℕ → ℕ → Result Store
start_at site st d s started_on now = do
  (st', c) ← start_clock site st d.name s.doctype s.name (some started_on) now
  ok st'

abbrev pub starts_on : Saved → ℕ
starts_on s = if is_some s.before then s.modified else s.creation

-- `_live_update` of a Time In State definition.
unfoldable pub live_state : Site → Store → Definition → Saved → ℕ → Result Store
live_state site st d s now =
    let entered = same s.value d.state_value && not (was_in s.before d.state_value) in
    let left = was_in s.before d.state_value && not (same s.value d.state_value) in
    if entered && applies_to site d s.doctype s.name
    then start_at site st d s (starts_on s) now
    else if left
    then stop_open site st d s now
    else ok st

abbrev pub acted_on : Option ℕ → Option ℕ → Saved → Bool
acted_on none before s = s.differs
acted_on (some field) before s = not (same before s.value)

-- `_live_update` of a Time To First Action definition.
unfoldable pub live_action :
    Site → Store → Definition → Saved → Option (Option ℕ) → ℕ → Result Store
live_action site st d s none now =
    if applies_to site d s.doctype s.name then start_at site st d s s.creation now else ok st
live_action site st d s (some before) now =
    if acted_on d.state_field before s then stop_open site st d s now else ok st

unfoldable pub live_by : Measure → Site → Store → Definition → Saved → ℕ → Result Store
live_by time_in_state site st d s now = live_state site st d s now
live_by _ site st d s now = live_action site st d s s.before now

unfoldable pub live_update : Site → Store → Definition → Saved → ℕ → Result Store
unfolding live_by live_state live_action
live_update site st d s now = live_by d.measure site st d s now

-- STATE_MEASURES
abbrev pub is_state_measure : Measure → Bool
is_state_measure time_in_state = true
is_state_measure time_to_first_action = true
is_state_measure _ = false

abbrev pub measures : Definition → Bool
measures d = d.active && is_state_measure d.measure

-- `_state_definitions`, of a DocType.
unfoldable pub state_definitions : Site → ℕ → List Definition
state_definitions site doctype =
    filter (λ d. measures d && d.target_doctype == doctype) site.definitions

-- The cache holds what the query gives.
unfoldable pub state_measured_doctypes : Site → List ℕ
state_measured_doctypes site =
    map (λ (d : Definition). d.target_doctype) (filter measures site.definitions)

-- An update that raises is logged and leaves the clocks: it has written nothing before it raises.
abbrev pub update_or_leave : Result Store → Store → Store
update_or_leave (err fault) st = st
update_or_leave (ok st') st = st'

unfoldable pub update_each : Site → Store → List Definition → Saved → ℕ → Store
update_each site st [] s now = st
update_each site st (d ∷ definitions) s now =
    update_each site (update_or_leave (live_update site st d s now) st) definitions s now

unfoldable pub on_subject_update : Site → Store → Saved → ℕ → Store
unfolding state_measured_doctypes state_definitions update_each
on_subject_update site st s now =
    if not (contains (state_measured_doctypes site) s.doctype)
    then st
    else update_each site st (state_definitions site s.doctype) s now

-- The users in the responsible fields of a record, in their order and each once, or its owner.
unfoldable pub filled : List (Option ℕ) → List ℕ → List ℕ
filled [] users = users
filled (none ∷ fields) users = filled fields users
filled (some u ∷ fields) users = filled fields (if contains users u then users else users ++ u ∷ [])

unfoldable pub responsible_users : Bool → List (Option ℕ) → ℕ → List ℕ
unfolding filled
responsible_users exists fields owner =
    if not exists
    then []
    else let users = filled fields [] in if is_empty users then owner ∷ [] else users

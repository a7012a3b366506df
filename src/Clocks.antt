-- ===== src/Clocks.antt =====
-- consilium_core/sla.py with the SLA Clock and SLA Definition: service-level clocks, started and stopped.
-- Clocks/Sweep sweeps them; the change log that drives some of them is in Clocks/History.
pub mod Saving
pub mod Sweep
pub mod Sweeping
pub mod History
pub mod Sync
pub mod Durations
mod Tests
use enterprise_management.Base.{
  ℕ, ◌+◌, ◌-◌, ◌*◌, ◌/◌, ◌≡◌, Option, none, some, Bool, true, false, not, ◌&&◌, List, [], ◌∷◌, ◌++◌,
  map, if◌then◌else◌, ◌==◌, ltb, leb, is_some, holds_name, ◌||◌, or_else, find, filter, read, write,
  ℤ, sub_ℕ, arith, Result, ok, err, demand, thrown, record_missing, ◌>>=◌,
}
use enterprise_management.StateFlags.{
  Flag, is_open, Stateful, StateRow, flag_eq, get_flag_map, apply_state_flags,
}
use enterprise_management.WorkingTime.{Calendar, business_target}

-- `measure`
pub data Measure : Type 0 where
  time_in_state time_to_first_action total_open_time time_to_close : Measure

-- `calendar`
pub data Reckoning : Type 0 where
  round_the_clock business_hours : Reckoning

-- An SLA Definition. `target_hours` is the length of `timedelta(hours=...)`, in microseconds, and
-- `applies_when` the name of its filters, where it has any. Its validation keeps the percentage in
-- 0 to 100.
pub record Definition : Type 0 where
  pub name : ℕ
  pub target_doctype : ℕ
  pub applies_when : Option ℕ
  pub measure : Measure
  pub state_field : Option ℕ
  pub state_value : Option ℕ
  pub target_hours : ℕ
  pub warning_threshold_pct : ℕ
  pub calendar : Reckoning
  pub business_calendar : Option ℕ
  pub creation : ℕ
  pub active : Bool

-- The labels of `status`.
abbrev pub running : ℕ
running = 1

abbrev pub met : ℕ
met = 2

abbrev pub breached : ℕ
breached = 3

abbrev pub cancelled : ℕ
cancelled = 4

-- An SLA Clock.
pub record Clock : Type 0 where
  pub name : ℕ
  pub sla_definition : ℕ
  pub subject_doctype : ℕ
  pub subject_name : ℕ
  pub started_on : ℕ
  pub target_on : ℕ
  pub stopped_on : Option ℕ
  pub paused_seconds : ℕ
  pub elapsed_seconds : ℤ
  pub status : ℕ
  pub open_flag : Bool
  pub breached_on : Option ℕ
  pub warning_sent_on : Option ℕ

abbrev pub status_field : ℕ
status_field = 20

abbrev pub sla_clock : ℕ
sla_clock = 21

abbrev pub declares : Flag → Bool
declares is_open = true
declares _ = false

abbrev pub flag_of : Clock → Flag → Bool
flag_of c is_open = c.open_flag
flag_of c _ = false

abbrev pub set_flag : Clock → Flag → Bool → Clock
set_flag c is_open b = record c { open_flag = b }
set_flag c _ b = c

abbrev pub value_of : Clock → ℕ → Option ℕ
value_of c field = if field == status_field then some c.status else none

pub value-set_flag :
    (c : Clock) (f : Flag) (b : Bool) (field : ℕ)
    → value_of (set_flag c f b) field ≡ value_of c field
value-set_flag c f b field = ground arith

pub flag-set_flag :
    (c : Clock) (f g : Flag) (b : Bool)
    → declares f ≡ true
    → flag_of (set_flag c f b) g ≡ (if flag_eq f g then b else flag_of c g)
flag-set_flag c f g b h = ground arith

abbrev pub clock_doc : Stateful Clock
clock_doc = record {
  has_field = λ field. field == status_field;
  has_flag = declares;
  value = value_of;
  flag = flag_of;
  set = set_flag;
  value-set = value-set_flag;
  flag-set = flag-set_flag;
}

-- An attempt to send a notice: the recipients are the notification module's matter.
pub data Notice : Type 0 where
  sla_breached sla_warning : ℕ → Notice

-- What the functions read. `share` is the product of a `timedelta` and `pct / 100`, which Python
-- rounds; `fresh` names a new row; `satisfies` is the query for `applies_when`; `handled` is the
-- `sla_definition` of an Escalation Matter.
pub record Site : Type 0 where
  pub definitions : List Definition
  pub calendars : ℕ → Option Calendar
  pub flag_rows : List StateRow
  pub workflow_field : Option ℕ
  pub share : ℕ → ℕ → ℕ
  pub fresh : List Clock → ℕ
  pub satisfies : ℕ → ℕ → Bool
  pub handled : ℕ → Option ℕ

pub record Store : Type 0 where
  pub clocks : List Clock
  pub notices : List Notice

abbrev pub need {ℓ} : {A : Type ℓ} → Option A → Result A
need o = demand o (thrown record_missing)

abbrev pub clock_named : ℕ → List Clock → Option Clock
clock_named n clocks = read (λ (c : Clock). c.name) n clocks

abbrev pub written : Store → Clock → Store
written st c = record st { clocks = write (λ (d : Clock). d.name) c st.clocks }

module _ (site : Site) where
  unfoldable pub calendar_target : Reckoning → Option ℕ → ℕ → ℕ → Result ℕ
  calendar_target business_hours (some n) started_on hours = do
    c ← need (site.calendars n)
    ok (business_target started_on hours c)
  calendar_target _ _ started_on hours = ok (started_on + hours)

  unfoldable pub target_datetime : Definition → ℕ → Result ℕ
  unfolding calendar_target
  target_datetime d started_on =
      calendar_target d.calendar d.business_calendar started_on d.target_hours

  -- SLAClock.validate
  unfoldable pub validate_clock : Clock → Result Clock
  validate_clock c =
      apply_state_flags clock_doc site.workflow_field (get_flag_map site.flag_rows sla_clock) c

  unfoldable pub save_clock : Store → Clock → Result (Store × Clock)
  save_clock st c = do d ← validate_clock c; ok (written st d, d)

  -- The document that `_new_clock` inserts.
  abbrev pub fresh_clock : Store → Definition → ℕ → ℕ → ℕ → ℕ → Clock
  fresh_clock st definition doctype subject started_on target = record {
    name = site.fresh st.clocks;
    sla_definition = definition.name;
    subject_doctype = doctype;
    subject_name = subject;
    started_on = started_on;
    target_on = target;
    stopped_on = none;
    paused_seconds = 0;
    elapsed_seconds = sub_ℕ 0 0;
    status = running;
    open_flag = true;
    breached_on = none;
    warning_sent_on = none;
  }

  unfoldable pub new_clock : Store → Definition → ℕ → ℕ → ℕ → Result (Store × Clock)
  new_clock st definition doctype subject started_on = do
    target ← target_datetime definition started_on
    c ← validate_clock (fresh_clock st definition doctype subject started_on target)
    ok (record st { clocks = st.clocks ++ c ∷ [] }, c)

-- The filters of the query for an open clock.
abbrev pub times : ℕ → ℕ → ℕ → Clock → Bool
times definition doctype subject c =
    c.sla_definition == definition && c.subject_doctype == doctype && c.subject_name == subject

abbrev pub is_open_clock : ℕ → ℕ → ℕ → Clock → Bool
is_open_clock definition doctype subject c = times definition doctype subject c && c.open_flag

module _ (site : Site) where
  unfoldable pub start_or_reuse :
      Store → Option Clock → Definition → ℕ → ℕ → ℕ → Result (Store × Clock)
  start_or_reuse st (some c) definition doctype subject started_on = ok (st, c)
  start_or_reuse st none definition doctype subject started_on =
      new_clock site st definition doctype subject started_on

  -- `started_on` is the caller's, or the time now.
  unfoldable pub start_clock : Store → ℕ → ℕ → ℕ → Option ℕ → ℕ → Result (Store × Clock)
  start_clock st definition doctype subject started_on now = do
    d ← need (read (λ (d : Definition). d.name) definition site.definitions)
    start_or_reuse st (find (is_open_clock definition doctype subject) st.clocks) d doctype subject
        (or_else started_on now)

  -- `int(total_seconds())` of the difference, which is negative where the stop is before the start.
  abbrev pub elapsed : ℕ → ℕ → ℕ → ℤ
  elapsed started_on stopped_on paused =
      sub_ℕ ((stopped_on - started_on) / 1000000) ((started_on - stopped_on) / 1000000 + paused)

  abbrev pub or_now : Option ℕ → ℕ → Option ℕ
  or_now none now = some now
  or_now (some t) now = some t

  -- The document as `stop_clock` changes it, before it is saved.
  unfoldable pub stopped : Clock → ℕ → Clock
  stopped c at_time =
      let late = ltb c.target_on at_time in
      record c {
        stopped_on = some at_time;
        elapsed_seconds = elapsed c.started_on at_time c.paused_seconds;
        status = if late then breached else met;
        breached_on = if late then or_now c.breached_on at_time else c.breached_on;
      }

  unfoldable pub stop_clock : Store → Clock → Option ℕ → ℕ → Result (Store × Clock)
  stop_clock st c stopped_on now = save_clock site st (stopped c (or_else stopped_on now))

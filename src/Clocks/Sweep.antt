-- ===== src/Clocks/Sweep.antt =====
-- consilium_core/sla.py `sweep`: clocks past their target are breached, and those near it are warned.
use enterprise_management.Base.{
  ℕ, ◌+◌, ◌-◌, Option, none, some, Bool, false, not, ◌&&◌, List, [], ◌∷◌, ◌++◌, map, if◌then◌else◌,
  ◌==◌, ltb, leb, is_some, holds_name, ◌||◌, filter, read, Result, ok, ◌>>=◌,
}
use enterprise_management.Clocks.{
  Definition, Clock, Site, Store, Notice, sla_breached, sla_warning, breached, need, clock_named,
  written, save_clock,
}

-- `_breach_notified_elsewhere`
abbrev pub escalation_matter : ℕ
escalation_matter = 22

abbrev pub breach_notified_elsewhere : Site → Clock → Bool
breach_notified_elsewhere site c =
    c.subject_doctype == escalation_matter
    && holds_name (site.handled c.subject_name) c.sla_definition

unfoldable pub warning_due_at : Site → Clock → Definition → Option ℕ
warning_due_at site c d =
    if d.warning_threshold_pct == 0 || leb 100 d.warning_threshold_pct
    then none
    else some (c.started_on + site.share (c.target_on - c.started_on) d.warning_threshold_pct)

abbrev pub due_by : Option ℕ → ℕ → Bool
due_by none as_of = false
due_by (some warn_at) as_of = leb warn_at as_of

abbrev pub noticed : Store → List Notice → Store
noticed st sent = record st { notices = st.notices ++ sent }

abbrev pub now_breached : Clock → ℕ → Clock
now_breached c now = record c { status = breached; breached_on = some now }

unfoldable pub breach_clock : Site → Store → Clock → ℕ → Result (Store × List ℕ)
breach_clock site st c now = do
  (st', c') ← save_clock site st (now_breached c now)
  ok (
    noticed st' (if breach_notified_elsewhere site c then [] else sla_breached c.name ∷ []),
    c.name ∷ [],
  )

unfoldable pub warn_clock : Site → Definition → Store → Clock → ℕ → ℕ → Store
unfolding warning_due_at
warn_clock site d st c as_of now =
    if due_by (warning_due_at site c d) as_of && not (is_some c.warning_sent_on)
    then noticed (written st (record c { warning_sent_on = some now })) (sla_warning c.name ∷ [])
    else st

unfoldable pub sweep_clock : Site → Definition → Store → Clock → ℕ → ℕ → Result (Store × List ℕ)
sweep_clock site d st c as_of now =
    if ltb c.target_on as_of
    then breach_clock site st c now
    else ok (warn_clock site d st c as_of now, [])

unfoldable pub sweep_named : Site → Store → ℕ → ℕ → ℕ → Result (Store × List ℕ)
unfolding sweep_clock
sweep_named site st name as_of now = do
  c ← need (clock_named name st.clocks)
  d ← need (read (λ (d : Definition). d.name) c.sla_definition site.definitions)
  sweep_clock site d st c as_of now

-- The loop, with the names that are breached.
unfoldable pub sweep_names : Site → Store → List ℕ → ℕ → ℕ → Result (Store × List ℕ)
unfolding sweep_named
sweep_names site st [] as_of now = ok (st, [])
sweep_names site st (name ∷ names) as_of now = do
  (st', hit) ← sweep_named site st name as_of now
  (st'', more) ← sweep_names site st' names as_of now
  ok (st'', hit ++ more)

unfoldable pub sweep : Site → Store → ℕ → ℕ → Result (Store × List ℕ)
unfolding sweep_names
sweep site st as_of now =
    sweep_names site st (map (λ (c : Clock). c.name) (filter (λ c. c.open_flag) st.clocks)) as_of
      now

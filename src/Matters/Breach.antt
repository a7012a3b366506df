-- ===== src/Matters/Breach.antt =====
-- escalation/resolution.py `sweep_breaches`: each breach of a matter's own service level is recorded
-- on the matter, raises its severity, and is told to the people of its pathway.
pub mod Recorded
pub mod Once
pub mod Sound
use enterprise_management.Base.{
  ℕ, ◌+◌, Option, none, some, Bool, true, false, not, ◌||◌, List, [], ◌∷◌, ◌++◌, map, if◌then◌else◌,
  ◌==◌, leb, same, is_some, or_else, filter, is_empty, sort_by, read, Result, ok, ◌>>=◌,
}
use enterprise_management.StateFlags.{is_open}
use enterprise_management.Clocks
use enterprise_management.Clocks.{Clock}
use enterprise_management.Clocks.Sweep.{sweep}
use enterprise_management.Matters.{EscalationMatter, ForumLink, matter_doctype}
use enterprise_management.Matters.Matrix.{Matrix}
use enterprise_management.Matters.Site.{Site, Session}
use enterprise_management.Matters.Queue.{each_once, keyed}
use enterprise_management.Matters.Pathway.{
  Participant, given, forum_of, raised_severity, forum_participants, stamp_notified,
}
use enterprise_management.Matters.Notices.{breach_recipients}
use enterprise_management.Matters.Saving.{
  notify_forums, World, matter_breached, matter_named, stored, told, save,
}

abbrev pub breached_at : Clock → ℕ
breached_at c = or_else c.breached_on 0

abbrev pub by_breach : Clock → Clock → Bool
by_breach a b = leb (breached_at a) (breached_at b)

-- Those breached at one instant are taken in the order of the table.
unfoldable pub breached_clocks : List Clock → List Clock
breached_clocks clocks = sort_by by_breach (
    filter (λ (c : Clock). is_some c.breached_on)
      (filter (λ (c : Clock). c.subject_doctype == matter_doctype) clocks))

abbrev pub breached : EscalationMatter → ℕ → ℕ → EscalationMatter
breached m clock breached_on = record m {
  threshold_breached = true;
  breach_count = m.breach_count + 1;
  last_breach_on = some breached_on;
  auto_escalated = true;
  severity = raised_severity m.severity;
  sla_clock = some clock;
}

abbrev pub at_or_after : Option ℕ → ℕ → Bool
at_or_after none t = false
at_or_after (some last) t = leb t last

-- A clock that `sweep_breaches` passes over: the matter is at rest, the clock is not of the
-- service level that the matter is under, or the matter has the breach or a later one.
abbrev pub is_passed_over : EscalationMatter → Clock → Bool
is_passed_over m c =
    not (m.flags is_open)
    || not (same m.sla_definition (some c.sla_definition))
    || at_or_after m.last_breach_on (breached_at c)

module _ (site : Site) where
  unfoldable pub notify_breach : World → EscalationMatter → Session → World
  unfolding notify_forums
  notify_breach w m by =
      (notify_forums site w m (matter_breached m.name (breach_recipients site m by.today)) by).0

  unfoldable pub record_breach : World → Session → EscalationMatter → ℕ → ℕ → Result World
  unfolding notify_breach
  record_breach w by m clock breached_on = do
    (w', m') ← save site w by true (breached m clock breached_on)
    ok (notify_breach w' m' by)

  unfoldable pub escalate : World → Session → EscalationMatter → Clock → Result (World × List ℕ)
  unfolding record_breach
  escalate w by m c =
      if is_passed_over m c
      then ok (w, [])
      else (do w' ← record_breach w by m c.name (breached_at c); ok (w', m.name ∷ []))

  abbrev pub escalate_if :
      World → Session → Option EscalationMatter → Clock → Result (World × List ℕ)
  escalate_if w by none c = ok (w, [])
  escalate_if w by (some m) c = escalate w by m c

  -- The loop of `sweep_breaches` over the breached clocks, with the names of the matters escalated.
  unfoldable pub escalate_all : World → Session → List Clock → Result (World × List ℕ)
  unfolding escalate
  escalate_all w by [] = ok (w, [])
  escalate_all w by (c ∷ clocks) = do
    (w1, first) ← escalate_if w by (matter_named w c.subject_name) c
    (w2, rest) ← escalate_all w1 by clocks
    ok (w2, first ++ rest)

  -- What the sweep of the clocks reads of the matters.
  abbrev pub handling : World → Clocks.Site
  handling w = record site.timing {
    handled = λ n. elim (matter_named w n) [ none ↦ none | some m ↦ m.sla_definition ];
  }

  unfoldable pub sweep_breaches : World → Session → ℕ → Result (World × List ℕ)
  unfolding escalate_all
  sweep_breaches w by as_of = do
    (swept, names) ← sweep (handling w) w.clocks as_of by.now
    escalate_all (record w { clocks = swept }) by (breached_clocks swept.clocks)

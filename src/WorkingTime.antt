-- ===== src/WorkingTime.antt =====
-- consilium_core/sla.py `_business_target`, with the Business Calendar it reads.
-- An instant is a number of microseconds since a Thursday's midnight, in the site's own time zone.

pub mod Worked
pub mod Days
pub mod Target
mod Tests
use enterprise_management.Base.{
  ℕ, zero, suc, ◌+◌, ◌-◌, ◌*◌, ◌/◌, ◌%◌, Bool, true, false, not, ◌||◌, ◌&&◌, List, if◌then◌else◌,
  ltb, leb, contains, Result, throw_if, hours_end_before_start,
}

abbrev pub day_length : ℕ
day_length = 86400000000

abbrev pub date : ℕ → ℕ
date t = t / day_length

-- `f"{date} 00:00:00"`
abbrev pub midnight : ℕ → ℕ
midnight day = day * day_length

abbrev pub weekday : ℕ → ℕ
weekday day = (day + 3) % 7

-- A Business Calendar: `works` by weekday, from Monday as 0, and the holidays' days.
pub record Calendar : Type 0 where
  pub works : ℕ → Bool
  pub holidays : List ℕ
  pub day_start : ℕ
  pub day_end : ℕ

-- `BusinessCalendar.validate`, of a calendar whose holidays are a list.
pub validate_calendar : Calendar → Result (Unit {0})
validate_calendar c = throw_if (leb c.day_end c.day_start) hours_end_before_start

-- `max(cursor, ...)`
unfoldable pub window_start : Calendar → ℕ → ℕ
window_start c cursor =
    let opens = midnight (date cursor) + c.day_start in if ltb cursor opens then opens else cursor

unfoldable pub window_end : Calendar → ℕ → ℕ
window_end c cursor = midnight (date cursor) + c.day_end

-- One round of the loop returns, or leaves a part of `remaining` for the following days.
pub data Round : Type 0 where
  arrives leaves : ℕ → Round

unfoldable pub within_window : ℕ → ℕ → ℕ → Round
within_window opens closes remaining =
    if leb closes opens
    then leaves remaining
    else if leb remaining (closes - opens)
    then arrives (opens + remaining)
    else leaves (remaining - (closes - opens))

unfoldable pub round : Calendar → ℕ → ℕ → Round
unfolding within_window window_start window_end
round c cursor remaining =
    if not (c.works (weekday (date cursor))) || contains c.holidays (date cursor)
    then leaves remaining
    else within_window (window_start c cursor) (window_end c cursor) remaining

-- The loop, with the rounds that the guard still allows.
unfoldable pub advance : ℕ → Calendar → ℕ → ℕ → ℕ
unfolding round
advance zero c cursor remaining = cursor
advance (suc guard) c cursor remaining = elim (ltb 0 remaining) [
  | false ↦ cursor
  | true ↦ elim (round c cursor remaining) [
    | arrives t ↦ t
    | leaves rest ↦ advance guard c (midnight (date cursor + 1)) rest
  ]
]

-- `hours` is the length of `timedelta(hours=hours)`.
unfoldable pub business_target : ℕ → ℕ → Calendar → ℕ
unfolding advance
business_target start hours c = advance 3650 c start hours

-- ===== src/Clocks/History.antt =====
-- consilium_core/sla.py: the stretches that a record spent in a state, rebuilt from its change log.
pub mod Stretches
use enterprise_management.Base.{
  ℕ, Option, none, some, Bool, true, false, ◌&&◌, ◌||◌, not, List, [], ◌∷◌, ◌++◌, if◌then◌else◌,
  ◌==◌, ltb, leb, same, holds_name, filter, any, sort_by, is_some,
}
use enterprise_management.Clocks.{Definition, Measure, time_in_state}

-- An entry of `changed`: the field, its old and its new value, where a missing value is as the empty
-- one.
pub record Change : Type 0 where
  pub field : ℕ
  pub before : Option ℕ
  pub after : Option ℕ

-- What a Version's `data` says: the changed fields, and whether rows were added, removed or changed.
pub record Changes : Type 0 where
  pub changed : List Change
  pub rows_differ : Bool

-- A Version; `content` is its `data`, missing where it cannot be parsed.
pub record LogRow : Type 0 where
  pub ref_doctype : ℕ
  pub docname : ℕ
  pub creation : ℕ
  pub content : Option Changes

-- What `sync_subject` reads of the measured record.
pub record Subject : Type 0 where
  pub name : ℕ
  pub creation : ℕ
  pub modified : ℕ
  pub value : Option ℕ

abbrev pub parsed : Option Changes → ℕ → List (ℕ × Changes)
parsed none when = []
parsed (some content) when = (when, content) ∷ []

parsed_rows : List LogRow → List (ℕ × Changes)
parsed_rows [] = []
parsed_rows (r ∷ rows) = parsed r.content r.creation ++ parsed_rows rows

-- `_versions`
unfoldable pub versions : List LogRow → ℕ → ℕ → List (ℕ × Changes)
unfolding parsed_rows
versions log doctype name = parsed_rows (
    sort_by (λ a b. leb a.creation b.creation)
      (filter (λ r. r.ref_doctype == doctype && r.docname == name) log))

-- A change of the state field: when, from what, to what.
pub record Move : Type 0 where
  pub when : ℕ
  pub old : Option ℕ
  pub new : Option ℕ

moves_of : Option ℕ → ℕ → List Change → List Move
moves_of field when [] = []
moves_of field when (c ∷ changed) =
    let rest = moves_of field when changed in
    if holds_name field c.field
    then record { when = when; old = c.before; new = c.after } ∷ rest
    else rest

all_moves : Option ℕ → List (ℕ × Changes) → List Move
unfolding moves_of
all_moves field [] = []
all_moves field ((when, content) ∷ entries) =
    moves_of field when content.changed ++ all_moves field entries

unfoldable pub moves : Option ℕ → List (ℕ × Changes) → List Move
unfolding all_moves
moves field entries = all_moves field entries

abbrev pub Interval : Type 0
Interval = ℕ × Option ℕ

-- `open_start` after a change.
abbrev pub start_after : Option ℕ → Option ℕ → Move → Option ℕ
start_after wanted none m = if same m.new wanted then some m.when else none
start_after wanted (some start) m = if same m.new wanted then some start else none

-- What a change appends to the intervals.
abbrev pub ended_by : Option ℕ → Option ℕ → Move → List Interval
ended_by wanted none m = []
ended_by wanted (some start) m = if same m.new wanted then [] else (start, some m.when) ∷ []

-- The stretch that the log leaves open.
abbrev pub left_open : Option ℕ → Subject → ℕ → Option ℕ → List Interval
left_open wanted s now none = []
left_open wanted s now (some start) =
    if same s.value wanted
    then (start, none) ∷ []
    else (start, some (if ltb start s.modified then s.modified else now)) ∷ []

unfoldable pub stretches : Option ℕ → Subject → ℕ → List Move → Option ℕ → List Interval
stretches wanted s now [] start = left_open wanted s now start
stretches wanted s now (m ∷ ms) start =
    ended_by wanted start m ++ stretches wanted s now ms (start_after wanted start m)

abbrev pub initial : List Move → Option ℕ → Option ℕ
initial [] value = value
initial (m ∷ ms) value = m.old

unfoldable pub intervals_of : Option ℕ → Subject → ℕ → List Move → List Interval
unfolding stretches
intervals_of wanted s now ms =
    stretches wanted s now ms (if same (initial ms s.value) wanted then some s.creation else none)

unfoldable pub state_intervals : List LogRow → Definition → Subject → ℕ → List Interval
unfolding versions moves intervals_of
state_intervals log d s now =
    intervals_of d.state_value s now (moves d.state_field (versions log d.target_doctype s.name))

abbrev pub acted : Option ℕ → Changes → Bool
acted none content = any (λ c. true) content.changed || content.rows_differ
acted (some field) content = any (λ c. c.field == field) content.changed

first_action : Option ℕ → ℕ → List (ℕ × Changes) → List Interval
first_action field created [] = (created, none) ∷ []
first_action field created ((when, content) ∷ entries) =
    let rest = first_action field created entries in
    if leb when created
    then rest
    else if acted field content
    then (created, some when) ∷ []
    else rest

unfoldable pub first_action_interval : List LogRow → Definition → Subject → List Interval
unfolding versions first_action
first_action_interval log d s =
    first_action d.state_field s.creation (versions log d.target_doctype s.name)

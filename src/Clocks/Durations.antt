-- ===== src/Clocks/Durations.antt =====
-- consilium_core/state_durations.py `stretches`: the stretches of every value of a field, oldest first.
use enterprise_management.Base.{
  ℕ, ◌≤◌, ◌<◌, ◌≡◌, refl, sym, ap, ◌∙◌, Option, none, some, Bool, true, false, ◌&&◌, List, [], ◌∷◌,
  ◌++◌, if◌then◌else◌, ltb, same, any, arith, Bool-cases, le-or-lt, same→eq, same_refl, subst, inl,
  inr,
}
use enterprise_management.Clocks.History.{Move, Subject, LogRow, initial, moves, versions}
use enterprise_management.Clocks.History.Stretches.{
  state_at, final_state, covers, InOrder, state-past, state-ahead,
}

pub record Stretch : Type 0 where
  pub value : Option ℕ
  pub started_on : ℕ
  pub ended_on : Option ℕ

abbrev pub later_of : ℕ → ℕ → ℕ
later_of a b = if ltb a b then b else a

abbrev pub stretch : Option ℕ → ℕ → Option ℕ → Stretch
stretch value start end = record { value = value; started_on = start; ended_on = end }

-- What a change appends, and the value and the start after it.
abbrev pub closed_by : Option ℕ → ℕ → Move → List Stretch
closed_by value start m =
    if same m.new value then [] else stretch value start (some (later_of m.when start)) ∷ []

abbrev pub value_after : Option ℕ → Move → Option ℕ
value_after value m = if same m.new value then value else m.new

abbrev pub start_of_next : Option ℕ → ℕ → Move → ℕ
start_of_next value start m = if same m.new value then start else later_of m.when start

-- A value that no change explains starts at the last modification.
abbrev pub last_stretches : Subject → Option ℕ → ℕ → List Stretch
last_stretches s value start =
    if same value s.value
    then stretch value start none ∷ []
    else stretch value start (some (later_of s.modified start))
      ∷ stretch s.value (later_of s.modified start) none
      ∷ []

unfoldable pub stretches_from : Subject → List Move → Option ℕ → ℕ → List Stretch
stretches_from s [] value start = last_stretches s value start
stretches_from s (m ∷ ms) value start =
    closed_by value start m
    ++ stretches_from s ms (value_after value m) (start_of_next value start m)

unfoldable pub value_stretches : Subject → List Move → List Stretch
unfolding stretches_from
value_stretches s ms = stretches_from s ms (initial ms s.value) s.creation

-- `subject` is the record, where it exists.
unfoldable pub stretches_of : List LogRow → ℕ → ℕ → ℕ → Option Subject → List Stretch
unfolding value_stretches
stretches_of log doctype name field none = []
stretches_of log doctype name field (some s) =
    value_stretches s (moves (some field) (versions log doctype name))

abbrev pub shows : Option ℕ → ℕ → Stretch → Bool
shows v t x = same x.value v && covers t (x.started_on, x.ended_on)

state_at-before :
    (v : Option ℕ) (ms : List Move) (from t : ℕ) → InOrder from ms → t < from → state_at v ms t ≡ v
unfolding state_at
state_at-before v [] from t o l = refl
state_at-before v (m ∷ ms) from t (k, o) l = ground arith

module _ (s : Subject) (v : Option ℕ) (t : ℕ) where
  abbrev shown : List Move → Option ℕ → ℕ → Bool
  shown ms value start = any (shows v t) (stretches_from s ms value start)

  not_yet :
      (ms : List Move) (value : Option ℕ) (start : ℕ) → t < start → shown ms value start ≡ false
  unfolding stretches_from
  not_yet [] value start l = elim (Bool-cases (same value s.value)) [
    | inl e ↦ rw e (ground arith)
    | inr e ↦ rw e (ground arith)
  ]
  not_yet (m ∷ ms) value start l = elim (Bool-cases (same m.new value)) [
    | inl e ↦ rw e (not_yet ms value start l)
    | inr e ↦ rw e (ground (arith, not_yet ms m.new (later_of m.when start)))
  ]

  no_move :
      (value : Option ℕ) (m : Move) (ms : List Move)
      → InOrder m.when ms
      → m.new ≡ value
      → state_at value (m ∷ ms) t ≡ state_at value ms t
  no_move value m ms o kept = elim (le-or-lt m.when t) [
    | inl past ↦ state-past t value m ms past ∙ ap (λ (x : Option ℕ). state_at x ms t) kept
    | inr ahead ↦ state-ahead t value m ms ahead ∙ sym (state_at-before value ms m.when t o ahead)
  ]

  shown-state :
      (ms : List Move) (value : Option ℕ) (start from : ℕ)
      → InOrder from ms
      → start ≤ from
      → start ≤ t
      → s.value ≡ final_state value ms
      → shown ms value start ≡ same (state_at value ms t) v
  unfolding stretches_from state_at
  shown-state [] value start from o k l e =
      let current : same value s.value ≡ true = rw e (same_refl value) in rw current (ground arith)
  shown-state (m ∷ ms) value start from (j, o) k l e = elim (Bool-cases (same m.new value)) [
    | inl stays ↦
        let kept : m.new ≡ value = same→eq m.new value stays in
        let ends : s.value ≡ final_state value ms =
          subst (λ (x : Option ℕ). s.value ≡ final_state x ms) kept e in
        rw stays (
          shown-state ms value start m.when o (omega arith) l ends
          ∙ ap (λ (x : Option ℕ). same x v) (sym (no_move value m ms o kept)))
    | inr moves_on ↦ elim (le-or-lt m.when t) [
      | inl past ↦
          let later : shown ms m.new m.when ≡ same (state_at m.new ms t) v =
            shown-state ms m.new m.when m.when o (omega arith) past e in
          let at : later_of m.when start ≡ m.when = ground arith in
          rw (moves_on, at, state-past t value m ms past, later) (ground arith)
      | inr ahead ↦
          let none_later : shown ms m.new m.when ≡ false = not_yet ms m.new m.when ahead in
          let at : later_of m.when start ≡ m.when = ground arith in
          rw (moves_on, at, state-ahead t value m ms ahead, none_later) (ground arith)
    ]
  ]

  -- Where a record's moves are in the order of time from its creation on, and its present value is
  -- the one that the last of them leaves, a time from the creation on lies in a stretch of a value
  -- exactly when the value that the moves give then is that value.
  pub value_stretches-state :
      (ms : List Move)
      → InOrder s.creation ms
      → s.creation ≤ t
      → s.value ≡ final_state (initial ms s.value) ms
      → any (shows v t) (value_stretches s ms) ≡ same (state_at (initial ms s.value) ms t) v
  unfolding value_stretches
  value_stretches-state ms o l e =
      shown-state ms (initial ms s.value) s.creation s.creation o (omega arith) l e

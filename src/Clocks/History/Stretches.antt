-- ===== src/Clocks/History/Stretches.antt =====
-- The stretches against the state that the log gives at each time.
use enterprise_management.Base.{
  ℕ, ◌≤◌, ◌<◌, ◌≡◌, refl, ◌∙◌, Option, none, some, Bool, true, false, ◌&&◌, List, [], ◌∷◌,
  if◌then◌else◌, any-append, ltb, leb, same, any, arith, Bool-cases, le-or-lt, inl, inr,
}
use enterprise_management.Clocks.History.{
  Move, Subject, Interval, start_after, ended_by, stretches, initial, intervals_of,
}

-- The value at a time: the last one set by then.
unfoldable pub state_at : Option ℕ → List Move → ℕ → Option ℕ
state_at v [] t = v
state_at v (m ∷ ms) t = let rest = state_at m.new ms t in if leb m.when t then rest else v

-- The value after the whole log.
abbrev pub final_state : Option ℕ → List Move → Option ℕ
final_state v [] = v
final_state v (m ∷ ms) = final_state m.new ms

abbrev pub covers : ℕ → Interval → Bool
covers t (start, none) = leb start t
covers t (start, some end) = leb start t && ltb t end

-- The log is in the order of time, from a time on.
abbrev pub InOrder : ℕ → List Move → Type 0
InOrder from [] = Unit
InOrder from (m ∷ ms) = (from ≤ m.when) × InOrder m.when ms

pub state-past :
    (t : ℕ) (v : Option ℕ) (m : Move) (ms : List Move)
    → m.when ≤ t
    → state_at v (m ∷ ms) t ≡ state_at m.new ms t
unfolding state_at
state-past t v m ms l = ground arith

pub state-ahead :
    (t : ℕ) (v : Option ℕ) (m : Move) (ms : List Move) → t < m.when → state_at v (m ∷ ms) t ≡ v
unfolding state_at
state-ahead t v m ms l = ground arith

module _ (wanted : Option ℕ) (s : Subject) (now t : ℕ) where
  abbrev covered : List Move → Option ℕ → Bool
  covered ms start = any (covers t) (stretches wanted s now ms start)

  -- Where no stretch is open, or one that starts after the time, no stretch covers it.
  abbrev StartsLater : Option ℕ → ℕ → Type 0
  StartsLater none from = t < from
  StartsLater (some start) from = (t < start) × (start ≤ from)

  later-after :
      (start : Option ℕ) (from : ℕ) (m : Move)
      → from ≤ m.when
      → StartsLater start from
      → StartsLater (start_after wanted start m) m.when
        × (any (covers t) (ended_by wanted start m) ≡ false)
  later-after none from m l h = elim (Bool-cases (same m.new wanted)) [
    | inl e ↦ rw e ((omega arith, omega arith), refl)
    | inr e ↦ rw e (omega arith, refl)
  ]
  later-after (some start) from m l (b, e) = elim (Bool-cases (same m.new wanted)) [
    | inl stays ↦ rw stays ((b, omega arith), refl)
    | inr leaves ↦ rw leaves (omega arith, ground arith)
  ]

  not-covered :
      (ms : List Move) (start : Option ℕ) (from : ℕ)
      → InOrder from ms
      → StartsLater start from
      → covered ms start ≡ false
  unfolding stretches
  not-covered [] none from o h = refl
  not-covered [] (some start) from o h = ground arith
  not-covered (m ∷ ms) start from (l, o) h =
      let (h', missed) = later-after start from m l h in
      any-append (covers t) (ended_by wanted start m) _ ∙ rw missed (not-covered ms _ m.when o h')

  abbrev IsComplete : Option ℕ → List Move → Type 0
  IsComplete v ms = same s.value wanted ≡ same (final_state v ms) wanted

  -- A stretch that has started and whose next move is later covers.
  is-covered :
      (ms : List Move) (v : Option ℕ) (start from : ℕ)
      → InOrder from ms
      → start ≤ t
      → t < from
      → same v wanted ≡ true
      → IsComplete v ms
      → covered ms (some start) ≡ true
  unfolding stretches
  is-covered [] v start from o begun l matches complete = rw (complete ∙ matches) (ground arith)
  is-covered (m ∷ ms) v start from (k, o) begun l matches complete =
      elim (Bool-cases (same m.new wanted)) [
        | inl stays ↦
            rw stays (is-covered ms m.new start m.when o begun (omega arith) stays complete)
        | inr leaves ↦ rw leaves (ground arith)
      ]

  OpensIn : Option ℕ → Option ℕ → ℕ → Type 0
  OpensIn v none from = same v wanted ≡ false
  OpensIn v (some start) from = (same v wanted ≡ true) × (start ≤ from)

  OpensIn-after :
      (v start : Option ℕ) (from : ℕ) (m : Move)
      → from ≤ m.when
      → OpensIn v start from
      → OpensIn m.new (start_after wanted start m) m.when
  unfolding OpensIn
  OpensIn-after v none from m l h = elim (Bool-cases (same m.new wanted)) [
    | inl e ↦ rw e (e, omega arith)
    | inr e ↦ rw e e
  ]
  OpensIn-after v (some start) from m l h = elim (Bool-cases (same m.new wanted)) [
    | inl e ↦ rw e (e, omega arith)
    | inr e ↦ rw e e
  ]

  -- A stretch that has ended does not cover.
  ended-lem :
      (v start : Option ℕ) (from : ℕ) (m : Move)
      → m.when ≤ t
      → any (covers t) (ended_by wanted start m) ≡ false
  ended-lem v none from m l = refl
  ended-lem v (some start) from m l = ground arith

  before_move :
      (m : Move) (ms : List Move) (v start : Option ℕ) (from : ℕ)
      → InOrder m.when ms
      → t < m.when
      → from ≤ t
      → OpensIn v start from
      → IsComplete v (m ∷ ms)
      → covered (m ∷ ms) start ≡ same v wanted
  unfolding OpensIn
  before_move m ms v none from o ahead l h complete =
      not-covered (m ∷ ms) none m.when (omega arith, o) ahead ∙ rw h
  before_move m ms v (some start) from o ahead l (h, b) complete =
      is-covered (m ∷ ms) v start m.when (omega arith, o) (omega arith) ahead h complete ∙ rw h

  covered-state :
      (ms : List Move) (v start : Option ℕ) (from : ℕ)
      → InOrder from ms
      → from ≤ t
      → OpensIn v start from
      → IsComplete v ms
      → covered ms start ≡ same (state_at v ms t) wanted
  unfolding stretches state_at OpensIn
  covered-state [] v none from o l h complete = rw h
  covered-state [] v (some start) from o l (h, b) complete = rw (complete, h) (ground arith)
  covered-state (m ∷ ms) v start from (k, o) l h complete = elim (le-or-lt m.when t) [
    | inl past ↦
        any-append (covers t) (ended_by wanted start m) _
        ∙ rw (ended-lem v start from m past, state-past t v m ms past)
            (covered-state ms m.new _ m.when o past (OpensIn-after v start from m k h) complete)
    | inr ahead ↦
        rw (state-ahead t v m ms ahead) (before_move m ms v start from o ahead l h complete)
  ]

  first_start :
      (ms : List Move)
      → OpensIn
          (initial ms s.value)
          (if same (initial ms s.value) wanted then some s.creation else none)
          s.creation
  unfolding OpensIn
  first_start ms = elim (Bool-cases (same (initial ms s.value) wanted)) [
    | inl e ↦ rw e (e, omega arith)
    | inr e ↦ rw e e
  ]

  -- Where a record's moves are in the order of time from its creation on, and its present value is
  -- in the wanted state exactly when the last of the moves leaves it there, a time from the creation
  -- on lies in one of the intervals exactly when the value that the moves give then is the wanted.
  pub intervals_of-state :
      (ms : List Move)
      → InOrder s.creation ms
      → s.creation ≤ t
      → same s.value wanted ≡ same (final_state (initial ms s.value) ms) wanted
      → any (covers t) (intervals_of wanted s now ms)
        ≡ same (state_at (initial ms s.value) ms t) wanted
  unfolding intervals_of
  intervals_of-state ms o l complete =
      covered-state ms (initial ms s.value) _ s.creation o l (first_start ms) complete

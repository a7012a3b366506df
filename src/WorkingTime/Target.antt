-- ===== src/WorkingTime/Target.antt =====
-- The target that the loop reaches, against the working time up to it.
use enterprise_management.Base.{
  ◌↔◌, ℕ, zero, suc, ◌+◌, ◌-◌, ◌≤◌, ◌<◌, ◌≡◌, refl, true, false, ltb, arith, sym, ◌∙◌, ◌⊎◌, inl,
  inr, le-or-lt,
}
use enterprise_management.WorkingTime.{
  Calendar, day_length, date, midnight, window_start, window_end, Round, arrives, leaves,
  within_window, round, advance, business_target,
}
use enterprise_management.WorkingTime.Worked.{worked, worked-append, worked_mono}
use enterprise_management.WorkingTime.Days.{
  is_open_day, worked-closed_day, worked-open_day, date-midnight, date-lt, starts-le,
}

-- At `target`, and not before, `hours` of working time have passed since `start`.
pub record IsTarget (c : Calendar) (start hours target : ℕ) : Type 0 where
  pub starts : start ≤ target
  pub passed : worked c start (target - start) ≡ hours
  pub first : (t : ℕ) → start ≤ t → t < target → worked c start (t - start) < hours

Round-cases : (r : Round) → ((t : ℕ) × (r ≡ arrives t)) ⊎ ((rest : ℕ) × (r ≡ leaves rest))
Round-cases (arrives t) = inl (t, refl)
Round-cases (leaves rest) = inr (rest, refl)

ltb_iff : (a b : ℕ) → (ltb a b ≡ true) ↔ (a < b)
ltb_iff a b = ground arith

within_window-leaves :
    (opens closes remaining rest : ℕ)
    → 0 < remaining
    → within_window opens closes remaining ≡ leaves rest
    → ((closes - opens) + rest ≡ remaining) × (0 < rest)
unfolding within_window
within_window-leaves opens closes remaining rest l h = ground arith

within_window-arrives :
    (opens closes remaining target : ℕ)
    → within_window opens closes remaining ≡ arrives target
    → (target ≡ opens + remaining) × (remaining ≤ closes - opens) × (opens < closes)
unfolding within_window
within_window-arrives opens closes remaining target h = ground arith

module _ (c : Calendar) (ends : c.day_end ≤ day_length) where
  ends-le : (t : ℕ) → window_end c t ≤ midnight (date t + 1)
  unfolding window_end
  ends-le t = omega arith

  -- The three ways a round goes.
  abbrev Closed : ℕ → Round → ℕ → Type 0
  Closed t r remaining = (is_open_day c (date t) ≡ false) × (r ≡ leaves remaining)

  round-cases :
      (t remaining : ℕ)
      → Closed t (round c t remaining) remaining
        ⊎ ((is_open_day c (date t) ≡ true)
            × (round c t remaining ≡ within_window (window_start c t) (window_end c t) remaining))
  unfolding round
  round-cases t remaining = ground arith

  round-leaves :
      (t remaining rest : ℕ)
      → 0 < remaining
      → round c t remaining ≡ leaves rest
      → (worked c t (midnight (date t + 1) - t) + rest ≡ remaining) × (0 < rest)
  round-leaves t remaining rest some_left h =
      let before = date-lt t in
      let fits = ends-le t in
      let whole : t + (midnight (date t + 1) - t) ≡ midnight (date t + 1) = omega arith in
      elim (round-cases t remaining) [
        | inl (closed, all) ↦
            let same : remaining ≡ rest = cc (all, h) in
            rw (worked-closed_day c t (midnight (date t + 1) - t) (omega arith) closed)
              (omega arith, omega arith)
        | inr (opened, way) ↦
            let (sum, left) = within_window-leaves _ _ remaining rest some_left (sym way ∙ h) in
            let part = worked-open_day c t (midnight (date t + 1) - t) (omega arith) opened in
            (ground arith, left)
      ]

  round-arrives :
      (t remaining target : ℕ)
      → 0 < remaining
      → round c t remaining ≡ arrives target
      → IsTarget c t remaining target × (target ≤ midnight (date t + 1))
  round-arrives t remaining target some_left h =
      let before = date-lt t in
      let fits = ends-le t in
      let begins = starts-le c t in
      elim (round-cases t remaining) [
        | inl (closed, all) ↦ absurd (cc (all, h))
        | inr (opened, way) ↦
            let (e, enough, inside) = within_window-arrives _ _ remaining target (sym way ∙ h) in
            let passed : worked c t (target - t) ≡ remaining =
              ground (arith, worked-open_day c t (target - t) (omega arith) opened) in
            let first : (u : ℕ) → t ≤ u → u < target → worked c t (u - t) < remaining =
              λ u l m. ground (arith, worked-open_day c t (u - t) (omega arith) opened) in
            (record { starts = omega arith; passed = passed; first = first }, omega arith)
      ]

  -- What is left of the hours after a day is reached from the next midnight.
  IsTarget-later :
      (t remaining rest target : ℕ)
      → 0 < rest
      → worked c t (midnight (date t + 1) - t) + rest ≡ remaining
      → IsTarget c (midnight (date t + 1)) rest target
      → IsTarget c t remaining target
  IsTarget-later t remaining rest target left sum later =
      let next = midnight (date t + 1) in
      let before : t < next = date-lt t in
      let starts : next ≤ target = later.starts in
      let upto : (u : ℕ)
          → next ≤ u
          → worked c t (u - t) ≡ worked c t (next - t) + worked c next (u - next) =
        λ u l.
          (let split : u - t ≡ (next - t) + (u - next) = omega arith in
            let middle : t + (next - t) ≡ next = omega arith in
            rw split (rw (worked-append c t (next - t) (u - next), middle))) in
      let passed : worked c t (target - t) ≡ remaining = upto target starts ∙ rw later.passed sum in
      let first : (u : ℕ) → t ≤ u → u < target → worked c t (u - t) < remaining = λ u l m.
        elim (le-or-lt next u) [
          | inl p ↦ rw (upto u p) (let short = later.first u p m in omega arith)
          | inr p ↦ let short = worked_mono c t (u - t) (next - t) (omega arith) in omega arith
        ] in
      record { starts = omega arith; passed = passed; first = first }

  -- Where the cursor stands once the guard's rounds have passed.
  abbrev limit : ℕ → ℕ → ℕ
  limit zero t = t
  limit (suc rounds) t = midnight (date t + suc rounds)

  limit-later : (guard t : ℕ) → limit guard (midnight (date t + 1)) ≡ midnight (date t + suc guard)
  limit-later zero t = refl
  limit-later (suc g) t = rw (date-midnight (date t + 1)) (omega arith)

  -- The next day's horizon is the same instant, and has the work that the day leaves over.
  worked-horizon :
      (guard t remaining rest : ℕ)
      → worked c t (midnight (date t + 1) - t) + rest ≡ remaining
      → worked c t (midnight (date t + suc guard) - t) + rest
        ≡ remaining
          + worked c
              (midnight (date t + 1))
              (limit guard (midnight (date t + 1)) - midnight (date t + 1))
  worked-horizon g t remaining rest sum =
      let next = midnight (date t + 1) in
      let end : limit g next ≡ midnight (date t + suc g) = limit-later g t in
      let before = date-lt t in
      let split : midnight (date t + suc g) - t ≡ (next - t) + (midnight (date t + suc g) - next) =
        omega arith in
      let middle : t + (next - t) ≡ next = omega arith in
      rw (end, split)
        (rw (worked-append c t (next - t) (midnight (date t + suc g) - next), middle) (omega arith))

  IsTarget-none : (t : ℕ) → IsTarget c t 0 t
  unfolding worked
  IsTarget-none t =
      let nothing : t - t ≡ 0 = omega arith in
      record { starts = omega arith; passed = rw nothing; first = λ u l m. absurd (omega arith) }

  advance-arrives :
      (guard t remaining target : ℕ)
      → 0 < remaining
      → round c t remaining ≡ arrives target
      → advance (suc guard) c t remaining ≡ target
  unfolding advance
  advance-arrives guard t remaining target l e = ground (arith, e)

  advance-leaves :
      (guard t remaining rest : ℕ)
      → 0 < remaining
      → round c t remaining ≡ leaves rest
      → advance (suc guard) c t remaining ≡ advance guard c (midnight (date t + 1)) rest
  unfolding advance
  advance-leaves guard t remaining rest l e = ground (arith, e)

  advance-IsTarget :
      (guard t remaining : ℕ)
      → remaining ≤ worked c t (limit guard t - t)
      → IsTarget c t remaining (advance guard c t remaining)
  unfolding advance
  advance-IsTarget zero t remaining h =
      let nothing : worked c t (t - t) ≡ 0 = (IsTarget-none t).passed in
      let short : remaining ≤ worked c t (t - t) = h in
      let none_left : remaining ≡ 0 = omega arith in rw none_left (IsTarget-none t)
  advance-IsTarget (suc g) t remaining h = elim (le-or-lt remaining 0) [
    | inl spent ↦ (let none_left : remaining ≡ 0 = omega arith in rw none_left (IsTarget-none t))
    | inr some_left ↦ elim (Round-cases (round c t remaining)) [
      | inl (target, e) ↦
          rw (advance-arrives g t remaining target some_left e)
            (round-arrives t remaining target some_left e).0
      | inr (rest, e) ↦
          let (sum, left) = round-leaves t remaining rest some_left e in
          let bound = worked-horizon g t remaining rest sum in
          rw (advance-leaves g t remaining rest some_left e) (
            IsTarget-later t remaining rest _ left sum
              (advance-IsTarget g (midnight (date t + 1)) rest (omega arith)))
    ]
  ]

  -- Without that much work the loop gives up on its last midnight.
  advance-limit :
      (guard t remaining : ℕ)
      → worked c t (limit guard t - t) < remaining
      → advance guard c t remaining ≡ limit guard t
  unfolding advance
  advance-limit zero t remaining h = refl
  advance-limit (suc g) t remaining h =
      let some_left : 0 < remaining = omega arith in
      elim (Round-cases (round c t remaining)) [
        | inl (target, e) ↦
            let (is_target, within) = round-arrives t remaining target some_left e in
            let long = worked_mono c t (target - t) (midnight (date t + suc g) - t) (omega arith) in
            let passed = is_target.passed in absurd (omega arith)
        | inr (rest, e) ↦
            let (sum, left) = round-leaves t remaining rest some_left e in
            let bound = worked-horizon g t remaining rest sum in
            advance-leaves g t remaining rest some_left e
            ∙ advance-limit g (midnight (date t + 1)) rest (omega arith)
            ∙ limit-later g t
      ]

  -- Where the working day ends by midnight, and from the start to the end of the 3650 days that
  -- begin with the start's there are `hours` of working time, the loop returns the first instant
  -- by which that much working time has passed: it does not run out of rounds.
  pub business_target-IsTarget :
      (start hours : ℕ)
      → hours ≤ worked c start (midnight (date start + 3650) - start)
      → IsTarget c start hours (business_target start hours c)
  unfolding business_target
  business_target-IsTarget start hours h = advance-IsTarget 3650 start hours h

  -- Where the working day ends by midnight, and from the start to the end of the 3650 days that
  -- begin with the start's there is less than `hours` of working time, the target is the midnight
  -- that ends them, and less than `hours` of working time have passed by it.
  pub business_target-limit :
      (start hours : ℕ)
      → worked c start (midnight (date start + 3650) - start) < hours
      → (business_target start hours c ≡ midnight (date start + 3650))
        × (worked c start (business_target start hours c - start) < hours)
  unfolding business_target
  business_target-limit start hours h = let e = advance-limit 3650 start hours h in (e, rw e h)

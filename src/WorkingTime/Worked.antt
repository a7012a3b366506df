-- ===== src/WorkingTime/Worked.antt =====
-- Working time as the calendar states it, instant by instant, with no days and no windows.
use enterprise_management.Base.{
  ℕ, zero, suc, ◌+◌, ◌-◌, ◌%◌, ◌≤◌, ◌<◌, ◌≡◌, refl, Bool, true, false, not, ◌&&◌, if◌then◌else◌,
  ltb, leb, contains, arith, ◌∙◌, ap,
}
use enterprise_management.WorkingTime.{Calendar, day_length, date, weekday}

-- An instant is working time when its day is worked, and its time of day within the hours.
unfoldable pub is_working : Calendar → ℕ → Bool
is_working c t =
    c.works (weekday (date t))
    && not (contains c.holidays (date t))
    && leb c.day_start (t % day_length)
    && ltb (t % day_length) c.day_end

-- The number of working instants among the `n` from `start`.
unfoldable pub worked : Calendar → ℕ → ℕ → ℕ
unfolding is_working
worked c start zero = 0
worked c start (suc n) = worked c start n + (if is_working c (start + n) then 1 else 0)

module _ (c : Calendar) where
  worked-suc :
      (a n : ℕ) → worked c a (suc n) ≡ worked c a n + (if is_working c (a + n) then 1 else 0)
  unfolding worked
  worked-suc a n = refl

  pub worked-append : (a m n : ℕ) → worked c a (m + n) ≡ worked c a m + worked c (a + m) n
  unfolding worked
  worked-append a m zero = let none_more : m + 0 ≡ m = omega arith in rw none_more (omega arith)
  worked-append a m (suc n) =
      let shift : m + suc n ≡ suc (m + n) = omega arith in
      let late : a + (m + n) ≡ a + m + n = omega arith in
      ap (worked c a) shift ∙ worked-suc a (m + n) ∙ rw (late, worked-append a m n) (omega arith)

  pub worked-none : (a n : ℕ) → ((k : ℕ) → k < n → is_working c (a + k) ≡ false) → worked c a n ≡ 0
  unfolding worked
  worked-none a zero h = refl
  worked-none a (suc n) h = rw (h n (omega arith), worked-none a n (λ k l. h k (omega arith)))

  pub worked-all : (a n : ℕ) → ((k : ℕ) → k < n → is_working c (a + k) ≡ true) → worked c a n ≡ n
  unfolding worked
  worked-all a zero h = refl
  worked-all a (suc n) h =
      rw (h n (omega arith), worked-all a n (λ k l. h k (omega arith))) (omega arith)

  pub worked_mono : (a m n : ℕ) → m ≤ n → worked c a m ≤ worked c a n
  worked_mono a m n h =
      let split : n ≡ m + (n - m) = omega arith in
      rw (split, worked-append a m (n - m)) (omega arith)

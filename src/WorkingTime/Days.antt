-- ===== src/WorkingTime/Days.antt =====
-- The working time of a part of one day, as the loop computes it.
use enterprise_management.Base.{
  ℕ, zero, suc, ◌+◌, ◌-◌, ◌%◌, ◌≤◌, ◌<◌, ◌≡◌, Bool, true, false, not, ◌&&◌, ◌||◌, if◌then◌else◌,
  ltb, leb, contains, arith, ◌∙◌, ap,
}
use enterprise_management.WorkingTime.{
  Calendar, day_length, date, midnight, weekday, window_start, window_end,
}
use enterprise_management.WorkingTime.Worked.{is_working, worked, worked-none}

abbrev pub min : ℕ → ℕ → ℕ
min a b = if leb a b then a else b

pub date-midnight : (d : ℕ) → date (midnight d) ≡ d
date-midnight d = omega arith

pub midnight-date-le : (t : ℕ) → midnight (date t) ≤ t
midnight-date-le t = omega arith

pub date-lt : (t : ℕ) → t < midnight (date t + 1)
date-lt t = omega arith

same_date : (t u : ℕ) → t ≤ u → u < midnight (date t + 1) → date u ≡ date t
same_date t u h l = omega arith

time_of_day : (u : ℕ) → u % day_length ≡ u - midnight (date u)
time_of_day u = omega arith

abbrev pub is_open_day : Calendar → ℕ → Bool
is_open_day c day = not (not (c.works (weekday day)) || contains c.holidays day)

in_hours :
    (m t opens closes u of_day : ℕ)
    → m ≤ t
    → t ≤ u
    → of_day ≡ u - m
    → (leb opens of_day && ltb of_day closes)
      ≡ (leb (if ltb t (m + opens) then m + opens else t) u && ltb u (m + closes))
in_hours m t opens closes u of_day h l e = ground arith

closed_or_open :
    (works holiday a b r : Bool)
    → (a && b) ≡ r
    → (works && not holiday && a && b) ≡ (not (not works || holiday) && r)
closed_or_open works holiday a b r h = ground arith

module _ (c : Calendar) (t : ℕ) where
  abbrev pub is_in_window : ℕ → Bool
  is_in_window u = leb (window_start c t) u && ltb u (window_end c t)

  -- On the cursor's day, working time is the window of an open day.
  is_working-window :
      (u : ℕ)
      → t ≤ u
      → u < midnight (date t + 1)
      → is_working c u ≡ (is_open_day c (date t) && is_in_window u)
  unfolding is_working window_start window_end
  is_working-window u h l =
      let d = same_date t u h l in
      let m : u % day_length ≡ u - midnight (date t) = rw (← d) (time_of_day u) in
      rw d (
        closed_or_open (c.works (weekday (date t))) (contains c.holidays (date t))
          (leb c.day_start (u % day_length)) (ltb (u % day_length) c.day_end) (is_in_window u)
          (in_hours (midnight (date t)) t c.day_start c.day_end u (u % day_length)
            (midnight-date-le t) h m))

  pub worked-closed_day :
      (n : ℕ) → t + n ≤ midnight (date t + 1) → is_open_day c (date t) ≡ false → worked c t n ≡ 0
  worked-closed_day n l closed = worked-none c t n (λ k j.
      is_working-window (t + k) (omega arith) (omega arith)
      ∙ ap (λ b. b && is_in_window (t + k)) closed)

  pub starts-le : t ≤ window_start c t
  unfolding window_start
  starts-le = ground arith

  -- On an open day, it is the part of the window that has passed.
  pub worked-open_day :
      (n : ℕ)
      → t + n ≤ midnight (date t + 1)
      → is_open_day c (date t) ≡ true
      → worked c t n ≡ min (t + n) (window_end c t) - window_start c t
  unfolding worked
  worked-open_day zero l opened = ground (arith, starts-le)
  worked-open_day (suc n) l opened =
      let now =
        is_working-window (t + n) (omega arith) (omega arith)
        ∙ ap (λ b. b && is_in_window (t + n)) opened in
      let before = worked-open_day n (omega arith) opened in
      rw (now, before) (ground (arith, starts-le))

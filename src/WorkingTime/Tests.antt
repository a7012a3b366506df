-- ===== src/WorkingTime/Tests.antt =====
-- Runs of the business-hours target, and the theorems at one calendar.
use enterprise_management.Base.{ℕ, ◌+◌, ◌-◌, ◌*◌, ◌≤◌, ◌<◌, ◌≡◌, refl, false, [], ◌∷◌, ltb, arith}
use enterprise_management.WorkingTime.{
  window_start, window_end, Calendar, day_length, date, midnight, business_target,
}
use enterprise_management.WorkingTime.Worked.{
  is_working, worked, worked-append, worked-none, worked_mono,
}
use enterprise_management.WorkingTime.Days.{worked-open_day}
use enterprise_management.WorkingTime.Target.{
  IsTarget, business_target-IsTarget, business_target-limit,
}

abbrev hour : ℕ
hour = 3600000000

-- Monday to Friday, from nine to five, with the first Monday a holiday.
abbrev office : Calendar
office = record {
  works = λ day. ltb day 5;
  holidays = 4 ∷ [];
  day_start = 9 * hour;
  day_end = 17 * hour;
}

abbrev closed : Calendar
closed = record { works = λ day. false; holidays = []; day_start = 9 * hour; day_end = 17 * hour }

abbrev thursday_at_four : ℕ
thursday_at_four = 16 * hour

-- Nine hours from Thursday at four end the working Friday; two more are Tuesday's.
over_the_weekend : business_target thursday_at_four (11 * hour) office ≡ midnight 5 + 11 * hour
unfolding business_target
over_the_weekend = refl

first_day : worked office thursday_at_four (midnight 1 - thursday_at_four) ≡ hour
unfolding window_start window_end
first_day =
    worked-open_day office thursday_at_four (midnight 1 - thursday_at_four) (omega arith) refl

second_day : worked office (midnight 1) day_length ≡ 8 * hour
unfolding window_start window_end
second_day = worked-open_day office (midnight 1) day_length (omega arith) refl

enough :
    2 * hour
    ≤ worked office thursday_at_four (midnight (date thursday_at_four + 3650) - thursday_at_four)
enough =
    let two_days =
      worked-append office thursday_at_four (midnight 1 - thursday_at_four) day_length in
    let rest =
      worked_mono office thursday_at_four (midnight 1 - thursday_at_four + day_length)
        (midnight (date thursday_at_four + 3650) - thursday_at_four) (omega arith) in
    omega (arith, two_days, rest, first_day, second_day)

business_target-IsTarget_example :
    IsTarget office thursday_at_four (2 * hour) (business_target thursday_at_four (2 * hour) office)
business_target-IsTarget_example =
    business_target-IsTarget office (omega arith) thursday_at_four (2 * hour) enough

never : (k : ℕ) → is_working closed (thursday_at_four + k) ≡ false
unfolding is_working
never k = refl

no_work :
    worked closed thursday_at_four (midnight (date thursday_at_four + 3650) - thursday_at_four) < 1
no_work =
    let none_worked =
      worked-none closed thursday_at_four
        (midnight (date thursday_at_four + 3650) - thursday_at_four) (λ k l. never k) in
    omega (arith, none_worked)

business_target-limit_example :
    (business_target thursday_at_four 1 closed ≡ midnight (date thursday_at_four + 3650))
    × (worked closed thursday_at_four (business_target thursday_at_four 1 closed - thursday_at_four)
        < 1)
business_target-limit_example =
    business_target-limit closed (omega arith) thursday_at_four 1 no_work

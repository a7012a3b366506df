-- ===== src/Delegation/Sweep.antt =====
-- The daily sweep that stores the `is_active` flag.
use enterprise_management.Base.{
  ℕ, ◌≡◌, refl, List, [], ◌∷◌, map, Bool, true, bool_eq, arith, length, filter, not,
}
use enterprise_management.Delegation.{Delegation, is_within_dates, refresh_active_flag, refresh_all}

abbrev is_stale : ℕ → Delegation → Bool
is_stale today d = not (bool_eq d.is_active (is_within_dates d today))

refresh_row :
    (today : ℕ) (d : Delegation)
    → bool_eq d.is_active (is_within_dates d today) ≡ true
    → d ≡ refresh_active_flag d today
unfolding refresh_active_flag
refresh_row today d h = ground arith

-- The sweep leaves every row as `validate` would set it today, in the same order.
pub refresh_all_lem :
    (table : List Delegation) (today : ℕ)
    → (refresh_all table today).0 ≡ map (λ d. refresh_active_flag d today) table
unfolding refresh_all refresh_active_flag
refresh_all_lem [] today = refl
refresh_all_lem (d ∷ ds) today = ground (arith, refresh_all_lem ds today)

-- The sweep counts exactly the rows whose stored flag was wrong.
pub count-refresh_all :
    (table : List Delegation) (today : ℕ)
    → (refresh_all table today).1 ≡ length (filter (is_stale today) table)
unfolding refresh_all
count-refresh_all [] today = refl
count-refresh_all (d ∷ ds) today = ground (arith, count-refresh_all ds today)

-- A second sweep on the same day writes nothing.
refresh_all-refresh_all :
    (table : List Delegation) (today : ℕ)
    → refresh_all (refresh_all table today).0 today ≡ ((refresh_all table today).0, 0)
unfolding refresh_all is_within_dates
refresh_all-refresh_all [] today = refl
refresh_all-refresh_all (d ∷ ds) today = ground (arith, refresh_all-refresh_all ds today)

-- ===== src/Membership/Held.antt =====
-- Membership as at a date: the question about one seat, and the list.
use enterprise_management.Base.{
  ℕ, ◌≡◌, ◌↔◌, some, true, List, Memᴰ, ◌==◌, ==_refl, mem-filter, filter-mem, find-mem, sort_by-mem,
  mem-sort_by, read, arith,
}
use enterprise_management.Membership.{
  Seat, is_open_on, by_start, members_as_at, held_on, seat_held_on,
}

held_on-is_open_on : (s : Seat) (day : ℕ) → held_on (some s) day ≡ is_open_on s.forum day s
unfolding held_on
held_on-is_open_on s day = ground (arith, ==_refl s.forum)

-- A seat is held on a day exactly when it stands among its forum's members as at that day.
seat_held_on-members_as_at :
    (seats : List Seat) (membership day : ℕ) {s : Seat}
    → read (λ (r : Seat). r.name) membership seats ≡ some s
    → (seat_held_on seats membership day ≡ true) ↔ Memᴰ s (members_as_at seats s.forum day)
unfolding seat_held_on members_as_at
seat_held_on-members_as_at seats membership day {s} found =
    rw (found, held_on-is_open_on s day)
      (
        λ h. sort_by-mem by_start (
            filter-mem (is_open_on s.forum day)
              (find-mem (λ (r : Seat). r.name == membership) seats found).0 h),
        λ m. (mem-filter (is_open_on s.forum day) seats (mem-sort_by by_start _ m)).1,
      )

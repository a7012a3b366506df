-- ===== src/Membership/Quorum.antt =====
-- Quorum: the percentage rule, and what more seats present do.
use enterprise_management.Base.{
  ℕ, ◌≤◌, ◌≡◌, refl, some, Bool, true, List, Memᴰ, contains-mem, mem-contains, length-filter_mono,
  any-filter_mono, arith,
}
use enterprise_management.Membership.{
  Seat, Register, Forum, is_present, role_defaults, quorum_counting_seats_as_at, quorum_status,
}

module _ (r : Register) (f : Forum) (day : ℕ) (few more : List ℕ)
    (included : (n : ℕ) → Memᴰ n few → Memᴰ n more) where
  present_mono : (s : Seat) → is_present (some few) s ≡ true → is_present (some more) s ≡ true
  present_mono s h = mem-contains more s.name (included s.name (contains-mem few s.name h))

  -- When every seat that was present still is, a quorum stays met, as many seats are counted or
  -- more, and the requirement is the same.
  quorum_status_mono :
      ((quorum_status r f day (some few)).met ≡ true
        → (quorum_status r f day (some more)).met ≡ true)
      × ((quorum_status r f day (some few)).counted ≤ (quorum_status r f day (some more)).counted)
      × ((quorum_status r f day (some few)).required ≡ (quorum_status r f day (some more)).required)
  unfolding quorum_status
  quorum_status_mono = (
    λ h. met h,
    length-filter_mono (is_present (some few)) (is_present (some more)) present_mono
        (quorum_counting_seats_as_at r.seats f.name day),
    refl,
  )
    where
      counting : List Seat
      counting = quorum_counting_seats_as_at r.seats f.name day

      chairs : Seat → Bool
      chairs s = (role_defaults r.roles s.forum_role).is_chair_role

      met :
          (quorum_status r f day (some few)).met ≡ true
          → (quorum_status r f day (some more)).met ≡ true
      met h = ground (
        arith,
        length-filter_mono (is_present (some few)) (is_present (some more)) present_mono counting,
        any-filter_mono (is_present (some few)) (is_present (some more)) present_mono chairs
            counting,
      )

-- ===== src/Membership/Seating/Closing.antt =====
-- What the closing of a seat does to its past and its future.
use enterprise_management.Base.{
  ℕ, ◌≤◌, ◌<◌, ◌≡◌, refl, sym, ◌∙◌, ap, subst, inl, inr, Option, none, some, false, List, or_else,
  is_some, if◌then◌else◌, read, write, read-write_self, read-name, demand, demand-eq-ok, ok,
  >>=-eq-ok, ok-injective, some-injective, Bool-cases, arith,
}
use enterprise_management.Membership.{Seat, Register, RoleDefaults, held_on, seat_held_on}
use enterprise_management.Membership.Seating.{apply_role_defaults, validate, save_seat, close_seat}
use enterprise_management.Membership.Seating.Invariants.{seats-sync_officers, validate-inv}

abbrev named : Seat → ℕ
named s = s.name

-- The seat as it is closed.
abbrev closed : Seat → ℕ → Option ℕ → Seat
closed s end end_reason = record s {
  end_date = some end;
  end_reason = if is_some end_reason then end_reason else s.end_reason;
}

old_defaults : (roles : List (ℕ × RoleDefaults)) (s : Seat) → apply_role_defaults roles false s ≡ s
unfolding apply_role_defaults
old_defaults roles s = elim (Bool-cases s.set_voting_rights_manually) [
  | inl e ↦ rw e refl
  | inr e ↦ rw e refl
]

save_seat-read :
    (r : Register) (given : Seat) (today : ℕ) {after : Register} {s : Seat}
    → read named given.name r.seats ≡ some s
    → save_seat r given today ≡ ok after
    → read named given.name after.seats ≡ some given
unfolding save_seat
save_seat-read r given today {after} {s} found h =
    let (t, valid, done) = >>=-eq-ok (validate r false given) _ h in
    let same : given ≡ t =
      sym (old_defaults r.roles given) ∙ (validate-inv r false given valid).0 in
    let seats : after.seats ≡ write named t r.seats =
      sym (ap (λ (x : Register). x.seats) (ok-injective done))
      ∙ seats-sync_officers (record r { seats = write named t r.seats }) t.forum today in
    rw (seats, ← same) (read-write_self named given given.name r.seats refl found)

close_seat-read :
    (r : Register) (membership : ℕ) (end_date end_reason : Option ℕ) (today : ℕ) {after : Register}
    {s : Seat}
    → read named membership r.seats ≡ some s
    → close_seat r membership end_date end_reason today ≡ ok after
    → read named membership after.seats ≡ some (closed s (or_else end_date today) end_reason)
unfolding close_seat
close_seat-read r membership end_date end_reason today {after} {s} found h =
    let (t, e, saved) = >>=-eq-ok (demand (read named membership r.seats) _) _ h in
    let same : t ≡ s = some-injective (sym (demand-eq-ok _ _ e) ∙ found) in
    let name : s.name ≡ membership = read-name named membership r.seats found in
    let done =
      subst
        (λ (x : Seat). save_seat r (closed x (or_else end_date today) end_reason) today ≡ ok after)
        same saved in
    subst (λ n. read named n after.seats ≡ some (closed s (or_else end_date today) end_reason)) name
      (save_seat-read r (closed s (or_else end_date today) end_reason) today
        (subst (λ n. read named n r.seats ≡ some s) (sym name) found) done)

ended :
    (s : Seat) (end day : ℕ) (end_reason : Option ℕ)
    → end < day
    → held_on (some (closed s end end_reason)) day ≡ false
unfolding held_on
ended s end day end_reason past = ground arith

unended :
    (s : Seat) (end day : ℕ) (end_reason : Option ℕ)
    → day ≤ end
    → s.end_date ≡ none
    → held_on (some (closed s end end_reason)) day ≡ held_on (some s) day
unfolding held_on
unended s end day end_reason upto endless = ground arith

-- A closed seat is held on no day after its end date, and on the days up to it exactly as it was
-- held before, where it had no end date.
close_seat-seat_held_on :
    (r : Register) (membership : ℕ) (end_date end_reason : Option ℕ) (today day : ℕ)
    {after : Register} {s : Seat}
    → read named membership r.seats ≡ some s
    → close_seat r membership end_date end_reason today ≡ ok after
    → (or_else end_date today < day → seat_held_on after.seats membership day ≡ false)
      × (day ≤ or_else end_date today
          → s.end_date ≡ none
          → seat_held_on after.seats membership day ≡ seat_held_on r.seats membership day)
unfolding seat_held_on
close_seat-seat_held_on r membership end_date end_reason today day {after} {s} found h =
    let later = close_seat-read r membership end_date end_reason today found h in
    rw (later, found)
      (
        λ past. ended s (or_else end_date today) day end_reason past,
        λ upto endless. unended s (or_else end_date today) day end_reason upto endless,
      )

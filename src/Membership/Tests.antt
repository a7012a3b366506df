-- ===== src/Membership/Tests.antt =====
-- A small register, and the theorems about membership at it.
use enterprise_management.Base.{
  sym, ◌∙◌, ap, ℕ, ◌*◌, ◌≡◌, refl, none, some, Bool, true, false, [], ◌∷◌, Memᴰ, ok, err, thrown,
  chair_already_seated,
}
use enterprise_management.Membership.{
  Seat, person, Forum, RoleDefaults, Register, percentage, unit, members_as_at, seat_held_on,
  derive_officers, sync_officers, forum_drift, quorum_requirement, quorum_status, role_defaults,
  entitled_voters_as_at, quorum_counting_seats_as_at, officer_drift,
}
use enterprise_management.Membership.Seating.{
  insert, validate, apply_role_defaults, overlapping, save_seat, close_seat,
}
use enterprise_management.Membership.Seating.Invariants.{
  Apart, same_member, both_chairs, insert-Apart,
}

abbrev chair_role : RoleDefaults
chair_role = record {
  counts_toward_quorum = true;
  votes_by_default = true;
  can_attest = false;
  is_chair_role = true;
  is_secretary_role = false;
  is_owner_role = false;
  max_holders = 0;
}

abbrev member_role : RoleDefaults
member_role = record chair_role { is_chair_role = false }

abbrev chair : Seat
chair = record {
  name = 11;
  forum = 5;
  member = some 20;
  seat_type = person;
  position_title = none;
  forum_role = 1;
  votes = true;
  counts_toward_quorum = true;
  set_voting_rights_manually = false;
  delegate = none;
  delegate_from = none;
  delegate_to = none;
  delegate_votes = false;
  start_date = 400;
  end_date = some 700;
  end_reason = none;
  docstatus = 0;
}

abbrev ordinary : Seat
ordinary = record chair { name = 12; member = some 21; forum_role = 2; end_date = none }

abbrev forum : Forum
forum = record {
  name = 5;
  officers = record { committee_chair = some 99; secretary = none; forum_owner = none };
  quorum_rule_type = percentage;
  quorum_value = 50 * unit;
  quorum_requires_chair = true;
  is_active = true;
}

abbrev seated : Register
seated = record {
  forums = forum ∷ [];
  seats = chair ∷ [];
  roles = (1, chair_role) ∷ (2, member_role) ∷ [];
}

abbrev full : Register
full = record seated { seats = chair ∷ ordinary ∷ [] }

program : Unit {0}
unfolding members_as_at seat_held_on entitled_voters_as_at quorum_counting_seats_as_at role_defaults
    derive_officers sync_officers forum_drift officer_drift quorum_requirement quorum_status insert
    validate apply_role_defaults overlapping
program = tt

abbrev synced : Forum
synced = record forum {
  officers = record { committee_chair = some 20; secretary = none; forum_owner = none };
}

takes_seat : insert seated ordinary 500 ≡ ok (record full { forums = synced ∷ [] })
unfolding program
takes_seat = refl

second_chair :
    insert seated (record chair { name = 13; member = some 22 }) 500
    ≡ err (thrown chair_already_seated)
unfolding program
second_chair = refl

-- A chair who starts when the first has left is seated.
successor :
    insert seated (record chair { name = 13; start_date = 701; end_date = none }) 500
    ≡ ok (record seated {
      forums = synced ∷ [];
      seats = chair ∷ record chair { name = 13; start_date = 701; end_date = none } ∷ [];
    })
unfolding program
successor = refl

quorate : (quorum_status full forum 500 (some (11 ∷ []))).met ≡ true
unfolding program
quorate = refl

chairless : (quorum_status full forum 500 (some (12 ∷ []))).met ≡ false
unfolding program
chairless = refl

alone : (related : Seat → Seat → Bool) → Apart related (chair ∷ [])
alone related s t (Memᴰ.head e) (Memᴰ.head f) on_forum other rel day on =
    absurd (other (ap (λ (x : Seat). x.name) (e ∙ sym f)))
alone related s t (Memᴰ.head e) (Memᴰ.tail n) on_forum other rel day on = elim n [ ]
alone related s t (Memᴰ.tail n) m on_forum other rel day on = elim n [ ]

insert-Apart_example :
    Apart same_member (record full { forums = synced ∷ [] }).seats
    × Apart (both_chairs seated.roles) (record full { forums = synced ∷ [] }).seats
insert-Apart_example =
    insert-Apart seated ordinary 500 takes_seat
      (alone same_member, alone (both_chairs seated.roles))

included : (n : ℕ) → Memᴰ n (11 ∷ []) → Memᴰ n (11 ∷ 12 ∷ [])
included n (Memᴰ.head e) = Memᴰ.head e
included n (Memᴰ.tail m) = elim m [ ]

abbrev after_closing : Register
after_closing = record full {
  forums = synced ∷ [];
  seats = chair ∷ record ordinary { end_date = some 600; end_reason = some 3 } ∷ [];
}

closes : close_seat full 12 (some 600) (some 3) 500 ≡ ok after_closing
unfolding program close_seat save_seat
closes = refl

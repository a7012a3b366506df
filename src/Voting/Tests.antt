-- ===== src/Voting/Tests.antt =====
-- A motion put, voted on, decided and edited; and the theorems about it at these inputs.
mod Sample
use enterprise_management.Base.{
  map, ◌⊎◌, arith, ℕ, ◌≡◌, refl, Option, none, some, true, false, [], ◌∷◌, ok, err, thrown, refused,
  wrong_delegate, other, voting_entitlement, quorum, motion_outcome_recorded, get, find, read,
  write, contains, any, ◌+◌, ◌↔◌, state_flags_not_configured,
}
use enterprise_management.StateFlags.{
  get_flag_map, apply_state_flags, apply_fields, apply_field, apply_value, in_application_order,
  set_flags, flags_for,
}
use enterprise_management.Membership.{
  Seat, delegate_active_on, Register, seat_held_on, entitled_voters_as_at, members_as_at,
  delegate_active_on, quorum_status, quorum_requirement, quorum_counting_seats_as_at, role_defaults,
  QuorumStatus,
}
use enterprise_management.Voting.{
  as_delegate, recused, abstain, motion_doc, validate_frozen, validate_voter, validate_seat,
  validate_vote, insert_vote, vote_for, vote_against, Vote, Motion, Chamber, forum_motion,
  outcome_field, save_motion, insert_vote, validate_vote, validate_seat, validate_voter,
  validate_frozen, save_vote, guard_frozen, validate_motion, same_frozen, refusal,
}
use enterprise_management.StateFlags.Refusals.{is_unconfigured, apply_state_flags-refuses_iff}
use enterprise_management.Voting.Ballots.Entitled.{
  Entitled, choice_of, marked_of, cast_vote-Entitled, cast_vote-keeps_delegate,
}
use enterprise_management.Voting.Ballots.Opening.{Opens, TopsUp, open_motion-Opens}
use enterprise_management.Voting.Ballots.Count.{number_of, weight_of, uncounted, tally-counts}
use enterprise_management.Voting.Screen.Own.{IsOwn, cast_my_vote-IsOwn}
use enterprise_management.Voting.Screen.Secretary.{IsQuorum, record_motion_outcome-stored}
use enterprise_management.Voting.Closed.{body_of}
use enterprise_management.Voting.Closed.Steps.{
  Sealed, Steps, done, onward, edit, reseat, StillSealed, Steps-StillSealed,
}
use enterprise_management.Voting.Ballots.{
  open_motion, cast_vote, tally, mark, entitlement, is_ballot,
}
use enterprise_management.Voting.Outcome.{
  decisions_for, cast_seats, recorded, forum_status, record_outcome,
}
use enterprise_management.Voting.Screen.{
  may_administer, is_standing_decision, my_seats, cast_my_vote, record_motion_outcome,
  insert_motion, propose_motion, castable, MySeat,
}
use enterprise_management.Voting.Tests.Sample.{
  ballot, carried_flags, by_value, other_seat, forum, motion, start, opened_chamber,
  delegate_ballot, chair_voted, both_voted, carried_motion, decided_chamber, nobody,
}

voting : Unit {0}
unfolding open_motion entitled_voters_as_at members_as_at insert_vote validate_vote validate_seat
    validate_voter validate_frozen seat_held_on delegate_active_on save_vote mark cast_vote
    entitlement cast_seats recorded forum_status record_outcome may_administer is_standing_decision
    my_seats cast_my_vote record_motion_outcome insert_motion propose_motion guard_frozen
    validate_motion save_motion same_frozen tally quorum_status quorum_requirement
    quorum_counting_seats_as_at role_defaults get_flag_map in_application_order set_flags
    apply_value apply_field apply_fields apply_state_flags flags_for
voting = tt

-- Of two entitled seats one has its ballot already.
abbrev chair_opened : Chamber
chair_opened = record opened_chamber { votes = ballot 200 11 20 ∷ []; next_name = 201 }

reopens : open_motion chair_opened motion none 450 ≡ ok (opened_chamber, 201 ∷ [])
unfolding voting
reopens = refl

opens : open_motion start motion none 450 ≡ ok (opened_chamber, 200 ∷ 201 ∷ [])
unfolding voting
opens = refl

chair_votes : cast_my_vote opened_chamber 100 11 vote_for none 20 510 ≡ ok chair_voted
unfolding voting
chair_votes = refl

delegate_votes : cast_my_vote chair_voted 100 12 vote_for none 22 511 ≡ ok both_voted
unfolding voting
delegate_votes = refl

stranger :
    cast_my_vote opened_chamber 100 11 vote_for none 21 510
    ≡ err (refused (refusal 100 other voting_entitlement))
unfolding voting
stranger = refl

-- After the delegate's ballot the seat's member is refused.
member_refused :
    cast_my_vote both_voted 100 12 vote_against none 21 512 ≡ err (thrown wrong_delegate)
unfolding voting
member_refused = refl

inquorate :
    record_motion_outcome nobody (1 ∷ 2 ∷ []) chair_voted 100 1 false 30 520
    ≡ err (refused (refusal 100 other quorum))
unfolding voting
inquorate = refl

decides :
    record_motion_outcome nobody (1 ∷ 2 ∷ []) both_voted 100 1 false 30 520 ≡ ok decided_chamber
unfolding voting
decides = refl

late_vote :
    cast_my_vote decided_chamber 100 11 vote_against none 20 530
    ≡ err (refused (refusal 100 other motion_outcome_recorded))
unfolding voting
late_vote = refl

carried-Sealed : Sealed by_value 100 decided_chamber carried_motion
unfolding voting
carried-Sealed = record {
  mapped = refl;
  stored = refl;
  closed = refl;
  closing = (carried_flags, refl, refl);
  older = omega arith;
}

-- Both seats lapse after the decision.
abbrev lapsed : Register
lapsed = record { forums = forum ∷ []; seats = []; roles = [] }

abbrev lapsed_chamber : Chamber
lapsed_chamber = record decided_chamber { register = lapsed }

later_edit :
    save_motion lapsed_chamber false (record carried_motion { opened_on = some 1 })
    ≡ ok (
      record lapsed_chamber { motions = record carried_motion { opened_on = some 1 } ∷ [] },
      record carried_motion { opened_on = some 1 },
    )
unfolding voting
later_edit = refl

afterwards :
    Steps nobody
      (1 ∷ 2 ∷ [])
      decided_chamber
      (record lapsed_chamber { motions = record carried_motion { opened_on = some 1 } ∷ [] })
afterwards = onward (onward done (reseat lapsed)) (
    edit (record carried_motion { opened_on = some 1 })
      (record carried_motion { opened_on = some 1 }) later_edit)

Steps-StillSealed_example :
    StillSealed nobody
      (1 ∷ 2 ∷ [])
      by_value
      100
      (record lapsed_chamber { motions = record carried_motion { opened_on = some 1 } ∷ [] })
      carried_motion
Steps-StillSealed_example =
    Steps-StillSealed nobody (1 ∷ 2 ∷ []) by_value 100 carried_motion afterwards carried-Sealed

mapped_by_outcome : get_flag_map start.flag_rows forum_motion ≡ (outcome_field, by_value) ∷ []
unfolding voting
mapped_by_outcome = refl

record_motion_outcome-stored_example :
    (m n : Motion) × (read (λ (x : Motion). x.name) 100 both_voted.motions ≡ some m)
    × (read (λ (x : Motion). x.name) 100 decided_chamber.motions ≡ some n)
    × (m.editable ≡ true)
    × (may_administer nobody both_voted m.forum 30 ≡ true)
    × (contains (1 ∷ 2 ∷ []) 1 ≡ true)
    × ((status : QuorumStatus) × IsQuorum both_voted m (cast_seats both_voted 100) status
        × (body_of n ≡ body_of (recorded m (tally both_voted 100) status 1 30 false 520))
        × (is_standing_decision both_voted 1 ≡ true → n.recording.quorum_met ≡ true))
record_motion_outcome-stored_example =
    record_motion_outcome-stored nobody (1 ∷ 2 ∷ []) both_voted 100 1 false 30 520 by_value
      mapped_by_outcome decides

delegate_cast :
    cast_vote chair_voted motion 12 vote_for (some 22) none true 511
    ≡ ok (both_voted, delegate_ballot)
unfolding voting
delegate_cast = refl

cast_vote-Entitled_example :
    (motion.editable ≡ true)
    × ((v : Vote) × (find (is_ballot 100 12) chair_voted.votes ≡ some v)
        × (standing : Option ℕ) × (choice_of delegate_ballot
            ≡ marked_of true v vote_for (some 22) standing))
    × Entitled chair_voted delegate_ballot
    × (both_voted ≡ record chair_voted {
      votes = write (λ (u : Vote). u.name) delegate_ballot chair_voted.votes;
    })
cast_vote-Entitled_example =
    cast_vote-Entitled chair_voted motion 12 vote_for (some 22) none true 511 delegate_cast

open_motion-Opens_example :
    (motion.editable ≡ true)
    × Opens
        (entitled_voters_as_at start.register.seats 5 500)
        100
        chair_opened.votes
        opened_chamber.votes
    × TopsUp
        (map (λ (s : Seat). s.name) (entitled_voters_as_at start.register.seats 5 500))
        100
        chair_opened.votes
        opened_chamber.votes
open_motion-Opens_example = open_motion-Opens chair_opened motion none 450 reopens

cast_my_vote-IsOwn_example :
    (m : Motion) × (read (λ (n : Motion). n.name) 100 chair_voted.motions ≡ some m)
    × (castable vote_for ≡ true)
    × ((r : MySeat) × (◌≡◌ {A = ℕ} r.membership 12)
        × IsOwn chair_voted m 22 r
        × ((w : Vote) × (cast_vote chair_voted m 12 vote_for (some 22) none r.as_delegate 511
              ≡ ok (both_voted, w))))
cast_my_vote-IsOwn_example =
    cast_my_vote-IsOwn chair_voted 100 12 vote_for none 22 511 delegate_votes

tally-counts_example :
    (((tally both_voted 100).votes_for ≡ weight_of vote_for (entitlement both_voted 100))
      × ((tally both_voted 100).votes_against
          ≡ weight_of vote_against (entitlement both_voted 100)))
    × (((tally both_voted 100).abstentions ≡ number_of abstain (entitlement both_voted 100))
        × ((tally both_voted 100).recusals ≡ number_of recused (entitlement both_voted 100)))
    × ((tally both_voted 100).votes_cast
        ≡ number_of vote_for (entitlement both_voted 100)
          + number_of vote_against (entitlement both_voted 100)
          + number_of abstain (entitlement both_voted 100))
    × ((tally both_voted 100).eligible_voter_count
        ≡ (tally both_voted 100).votes_cast
          + (tally both_voted 100).recusals
          + uncounted (entitlement both_voted 100))
tally-counts_example = tally-counts both_voted 100

delegate_row : find (is_ballot 100 12) both_voted.votes ≡ some delegate_ballot
delegate_row = refl

-- The delegate's ballot, changed by a vote that names nobody.
abbrev changed_ballot : Vote
changed_ballot = record delegate_ballot { position = abstain }

abbrev changed_chamber : Chamber
changed_chamber = record both_voted {
  votes = write (λ (u : Vote). u.name) changed_ballot both_voted.votes;
}

changes :
    cast_vote both_voted motion 12 abstain none none false 512
    ≡ ok (changed_chamber, changed_ballot)
unfolding voting
changes = refl

cast_vote-keeps_delegate_example :
    (changed_ballot.voted_as ≡ as_delegate)
    × (changed_ballot.voter ≡ other_seat.delegate)
    × ((on_motion : Motion) × (read (λ (x : Motion). x.name) 100 both_voted.motions
          ≡ some on_motion)
        × (delegate_active_on other_seat on_motion.decision_date ≡ true))
    × ((◌≡◌ {A = Option ℕ} none none) ⊎ (◌≡◌ {A = Option ℕ} none other_seat.delegate))
cast_vote-keeps_delegate_example =
    cast_vote-keeps_delegate both_voted motion 12 abstain none none false 512 delegate_ballot
      other_seat delegate_row refl refl changes

mapped_entry : get outcome_field (get_flag_map start.flag_rows forum_motion) ≡ some by_value
unfolding voting
mapped_entry = refl

flags_applied :
    apply_state_flags motion_doc
      (some outcome_field)
      (get_flag_map start.flag_rows forum_motion)
      (record carried_motion { editable = true; open_flag = true })
    ≡ ok carried_motion
unfolding voting
flags_applied = refl

-- An outcome that no row configures.
abbrev unlisted : Motion
unlisted = record carried_motion {
  recording = record carried_motion.recording { outcome = some 3 };
}

apply_state_flags-refuses_iff_example :
    (apply_state_flags motion_doc none ((outcome_field, by_value) ∷ []) unlisted
      ≡ err (thrown state_flags_not_configured))
    ↔ (any (is_unconfigured motion_doc unlisted) ((outcome_field, by_value) ∷ []) ≡ true)
apply_state_flags-refuses_iff_example =
    apply_state_flags-refuses_iff motion_doc none ((outcome_field, by_value) ∷ []) unlisted

-- The decisions of the forum from a day on, the latest first.
decisions_run :
    decisions_for
      (λ m. m.name)
      (record start {
        motions =
            record motion { name = 101; decision_date = 60 }
            ∷ record motion { name = 102; decision_date = 80 }
            ∷ record motion { name = 103; decision_date = 40 }
            ∷ record motion { name = 104; forum = 6 }
            ∷ [];
      })
      5
      (some 50)
      none
      none
    ≡ record motion { name = 102; decision_date = 80 }
      ∷ record motion { name = 101; decision_date = 60 }
      ∷ []
unfolding decisions_for
decisions_run = refl

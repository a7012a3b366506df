-- ===== src/Voting/Tests/Sample.antt =====
-- A forum with two seats, a motion put to it, and the chambers that the ballots leave.
use enterprise_management.Base.{ℕ, ◌*◌, none, some, Bool, true, false, [], ◌∷◌}
use enterprise_management.StateFlags.{Flags, StateRow, ByValue, is_editable, is_active, is_open}
use enterprise_management.Membership.{Seat, person, Forum, fixed_count, RoleDefaults, unit}
use enterprise_management.Voting.{not_cast, vote_for, as_member, as_delegate, Vote, Motion, Chamber}
use enterprise_management.Voting.Ballots.{no_counts}
use enterprise_management.Voting.Outcome.{columns_of}

abbrev pub carried_flags : Flags
carried_flags is_active = true
carried_flags _ = false

abbrev deferred_flags : Flags
deferred_flags is_editable = true
deferred_flags is_open = true
deferred_flags is_active = true
deferred_flags _ = false

abbrev pub by_value : ByValue
by_value = (1, carried_flags) ∷ (2, deferred_flags) ∷ []

abbrev row : ℕ → Flags → StateRow
row value flags = record { target_doctype = 2; state_field = 1; state_value = value; flags = flags }

abbrev chair_role : RoleDefaults
chair_role = record {
  counts_toward_quorum = true;
  votes_by_default = true;
  can_attest = false;
  is_chair_role = true;
  is_secretary_role = false;
  is_owner_role = false;
  max_holders = 1;
}

abbrev chair_seat : Seat
chair_seat = record {
  name = 11;
  forum = 5;
  member = some 20;
  seat_type = person;
  position_title = none;
  forum_role = 1;
  votes = true;
  counts_toward_quorum = true;
  set_voting_rights_manually = false;
  delegate = none;
  delegate_from = none;
  delegate_to = none;
  delegate_votes = false;
  start_date = 400;
  end_date = none;
  end_reason = none;
  docstatus = 0;
}

-- Member 21, whom 22 may stand in for until day 600.
abbrev pub other_seat : Seat
other_seat = record chair_seat {
  name = 12;
  member = some 21;
  forum_role = 2;
  delegate = some 22;
  delegate_to = some 600;
  delegate_votes = true;
}

abbrev pub forum : Forum
forum = record {
  name = 5;
  officers = record { committee_chair = some 20; secretary = some 30; forum_owner = none };
  quorum_rule_type = fixed_count;
  quorum_value = 2 * unit;
  quorum_requires_chair = true;
  is_active = true;
}

abbrev pub motion : Motion
motion = record {
  name = 100;
  forum = 5;
  meeting = none;
  decision_date = 500;
  opened_on = some 450;
  editable = true;
  open_flag = true;
  recording = record {
    counts = columns_of (no_counts 0);
    quorum_required = 0;
    quorum_met = false;
    outcome = none;
    outcome_recorded_by = none;
    chair_casting_vote_used = false;
    closed_on = none;
  };
}

abbrev pub start : Chamber
start = record {
  register = record {
    forums = forum ∷ [];
    seats = chair_seat ∷ other_seat ∷ [];
    roles = (1, chair_role) ∷ [];
  };
  motions = motion ∷ [];
  votes = [];
  meetings = [];
  flag_rows = row 1 carried_flags ∷ row 2 deferred_flags ∷ [];
  workflow_field = none;
  next_name = 200;
}

abbrev pub ballot : ℕ → ℕ → ℕ → Vote
ballot name seat member = record {
  name = name;
  motion = 100;
  membership = seat;
  voter = some member;
  voted_as = as_member;
  acting_for = none;
  position = not_cast;
  weight = unit;
  cast_on = none;
  rationale = none;
}

abbrev pub opened_chamber : Chamber
opened_chamber = record start { votes = ballot 200 11 20 ∷ ballot 201 12 21 ∷ []; next_name = 202 }

abbrev chair_ballot : Vote
chair_ballot = record (ballot 200 11 20) { position = vote_for; cast_on = some 510 }

abbrev pub delegate_ballot : Vote
delegate_ballot = record (ballot 201 12 22) {
  voted_as = as_delegate;
  acting_for = some 21;
  position = vote_for;
  cast_on = some 511;
}

abbrev pub chair_voted : Chamber
chair_voted = record opened_chamber { votes = chair_ballot ∷ ballot 201 12 21 ∷ [] }

abbrev pub both_voted : Chamber
both_voted = record opened_chamber { votes = chair_ballot ∷ delegate_ballot ∷ [] }

abbrev pub carried_motion : Motion
carried_motion = record motion {
  editable = false;
  open_flag = false;
  recording = record {
    counts = record (columns_of (no_counts 2)) { votes_cast = 2; votes_for = 2 };
    quorum_required = 2 * unit;
    quorum_met = true;
    outcome = some 1;
    outcome_recorded_by = some 30;
    chair_casting_vote_used = false;
    closed_on = some 520;
  };
}

abbrev pub decided_chamber : Chamber
decided_chamber = record both_voted { motions = carried_motion ∷ [] }

-- Nobody may write motions by permission.
abbrev pub nobody : ℕ → Bool
nobody user = false

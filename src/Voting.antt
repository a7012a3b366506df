-- ===== src/Voting.antt =====
-- governance/voting.py with the Forum Vote and Forum Motion controllers: the records and the
-- tables, and the checks that a save makes. The screens' operations are in the children.
pub mod Ballots
pub mod Outcome
pub mod Screen
pub mod Closed
mod Tests
use enterprise_management.Base.{
  voting_entitlement_record, delete, demand, ℕ, suc, ◌+◌, ◌-◌, ◌*◌, ◌/◌, ◌≡◌, refl, Option, none,
  some, Bool, true, false, not, ◌&&◌, ◌||◌, List, [], ◌∷◌, ◌++◌, map, if◌then◌else◌, ◌==◌, ltb, leb,
  same, is_some, holds_name, filter, any, find, contains, read, write, length, bool_eq, get, put,
  Result, ok, err, thrown, refused, Refusal, Attempt, Control, ◌>>=◌, ◌>>◌, throw_if, refuse_if,
  arith, other, modify, motion_outcome_recorded, entitlement_as_at_decision_date,
  recorded_decision_immutability, motion_missing, seat_missing, wrong_forum, not_entitled,
  delegate_may_not_vote, delegation_not_in_force, wrong_delegate, wrong_voter, motion_closed,
  record_missing,
}
use enterprise_management.StateFlags.{
  Flag, is_editable, is_open, Stateful, StateRow, flag_eq, get_flag_map, apply_state_flags,
}
use enterprise_management.Membership.{
  Seat, Forum, Register, seat_held_on, entitled_voters_as_at, delegate_active_on,
}

pub data Position : Type 0 where
  not_cast vote_for vote_against abstain recused : Position
  unknown : ℕ → Position

abbrev pub position_eq : Position → Position → Bool
position_eq not_cast not_cast = true
position_eq vote_for vote_for = true
position_eq vote_against vote_against = true
position_eq abstain abstain = true
position_eq recused recused = true
position_eq (unknown a) (unknown b) = a == b
position_eq _ _ = false

pub data VotedAs : Type 0 where
  as_member as_delegate : VotedAs

-- `weight` counts units of 10^-9.
pub record Vote : Type 0 where
  pub name : ℕ
  pub motion : ℕ
  pub membership : ℕ
  pub voter : Option ℕ
  pub voted_as : VotedAs
  pub acting_for : Option ℕ
  pub position : Position
  pub weight : ℕ
  pub cast_on : Option ℕ
  pub rationale : Option ℕ

-- The counters that `tally` returns.
pub record Counts : Type 0 where
  pub eligible_voter_count : ℕ
  pub votes_cast : ℕ
  pub votes_for : ℕ
  pub votes_against : ℕ
  pub abstentions : ℕ
  pub recusals : ℕ

-- The counters of a motion, which has no column for the recusals.
pub record Counters : Type 0 where
  pub eligible_voter_count : ℕ
  pub votes_cast : ℕ
  pub votes_for : ℕ
  pub votes_against : ℕ
  pub abstentions : ℕ

-- The fields that only the recording of an outcome writes, but for `decision_date`.
pub record Recording : Type 0 where
  pub counts : Counters
  pub quorum_required : ℕ
  pub quorum_met : Bool
  pub outcome : Option ℕ
  pub outcome_recorded_by : Option ℕ
  pub chair_casting_vote_used : Bool
  pub closed_on : Option ℕ

pub record Motion : Type 0 where
  pub name : ℕ
  pub forum : ℕ
  pub meeting : Option ℕ
  pub decision_date : ℕ
  pub opened_on : Option ℕ
  pub editable : Bool
  pub open_flag : Bool
  pub recording : Recording

-- The tables, with the configuration of the state flags; names of new rows come from `next_name`.
pub record Chamber : Type 0 where
  pub register : Register
  pub motions : List Motion
  pub votes : List Vote
  pub meetings : List (ℕ × ℕ)
  pub flag_rows : List StateRow
  pub workflow_field : Option ℕ
  pub next_name : ℕ

abbrev pub forum_motion : ℕ
forum_motion = 2

abbrev pub forum_vote : ℕ
forum_vote = 5

abbrev pub outcome_field : ℕ
outcome_field = 1

abbrev pub declares : Flag → Bool
declares is_open = true
declares is_editable = true
declares _ = false

abbrev pub flag_of : Motion → Flag → Bool
flag_of m is_open = m.open_flag
flag_of m is_editable = m.editable
flag_of m _ = false

abbrev pub set_flag : Motion → Flag → Bool → Motion
set_flag m is_open b = record m { open_flag = b }
set_flag m is_editable b = record m { editable = b }
set_flag m _ b = m

abbrev pub value_of : Motion → ℕ → Option ℕ
value_of m field = if field == outcome_field then m.recording.outcome else none

pub value-set_flag :
    (m : Motion) (f : Flag) (b : Bool) (field : ℕ)
    → value_of (set_flag m f b) field ≡ value_of m field
value-set_flag m f b field = ground arith

pub flag-set_flag :
    (m : Motion) (f g : Flag) (b : Bool)
    → declares f ≡ true
    → flag_of (set_flag m f b) g ≡ (if flag_eq f g then b else flag_of m g)
flag-set_flag m f g b h = ground arith

abbrev pub motion_doc : Stateful Motion
motion_doc = record {
  has_field = λ field. field == outcome_field;
  has_flag = declares;
  value = value_of;
  flag = flag_of;
  set = set_flag;
  value-set = value-set_flag;
  flag-set = flag-set_flag;
}

abbrev pub refusal : ℕ → Attempt → Control → Refusal
refusal motion attempt control = record {
  subject_doctype = forum_motion;
  subject_name = motion;
  attempted_action = attempt;
  control = control;
  retention_class = none;
  legal_hold = none;
}

abbrev pub need {ℓ} : {A : Type ℓ} → Option A → Result A
need o = demand o (thrown record_missing)

-- ForumVote._validate_seat
unfoldable pub validate_seat : Chamber → Motion → Vote → Result Seat
validate_seat c m v = do
  s ← demand (read (λ (s : Seat). s.name) v.membership c.register.seats) (thrown seat_missing)
  throw_if (not (s.forum == m.forum)) wrong_forum
  throw_if (not s.votes) not_entitled
  ok s

unfoldable pub validate_voter : VotedAs → Seat → Motion → Vote → Result Vote
validate_voter as_delegate s m v = do
  throw_if (not s.delegate_votes) delegate_may_not_vote
  throw_if (not (delegate_active_on s m.decision_date)) delegation_not_in_force
  throw_if (not (same v.voter s.delegate)) wrong_delegate
  ok (record v { acting_for = s.member })
validate_voter as_member s m v = do
  throw_if (is_some s.member && not (same v.voter s.member)) wrong_voter
  ok v

-- `before` is the stored row of a vote that is not new.
unfoldable pub validate_frozen : Option Vote → Motion → Vote → Result (Unit {0})
validate_frozen none m v = throw_if (not m.editable) motion_closed
validate_frozen (some before) m v =
    if m.editable
    then ok tt
    else refuse_if (not (position_eq before.position v.position))
        (refusal m.name modify recorded_decision_immutability)

-- A ballot that is cast gets its time once.
abbrev pub stamped : Vote → ℕ → Vote
stamped v now =
    if not (position_eq v.position not_cast) && not (is_some v.cast_on)
    then record v { cast_on = some now }
    else v

-- ForumVote.validate
unfoldable pub validate_vote : Chamber → Option Vote → Vote → ℕ → Result Vote
validate_vote c before v now = do
  m ← demand (read (λ (m : Motion). m.name) v.motion c.motions) (thrown motion_missing)
  s ← validate_seat c m v
  refuse_if (not (seat_held_on c.register.seats v.membership m.decision_date))
      (refusal v.motion other entitlement_as_at_decision_date)
  w ← validate_voter v.voted_as s m v
  validate_frozen before m w
  ok (stamped w now)

unfoldable pub insert_vote : Chamber → Vote → ℕ → Result Chamber
insert_vote c v now = do
  w ← validate_vote c none v now
  ok (record c { votes = c.votes ++ w ∷ []; next_name = c.next_name + 1 })

unfoldable pub save_vote : Chamber → Vote → ℕ → Result (Chamber × Vote)
save_vote c v now = do
  w ← validate_vote c (read (λ (u : Vote). u.name) v.name c.votes) v now
  ok (record c { votes = write (λ (u : Vote). u.name) w c.votes }, w)

-- ForumVote.on_trash
unfoldable pub trash_vote : Vote → Result (Unit {0})
trash_vote v = err (
    refused
      (record (refusal v.name delete voting_entitlement_record) { subject_doctype = forum_vote }))

abbrev pub counts_eq : Counters → Counters → Bool
counts_eq a b =
    a.eligible_voter_count == b.eligible_voter_count
    && (a.votes_cast == b.votes_cast
        && (a.votes_for == b.votes_for
            && (a.votes_against == b.votes_against && a.abstentions == b.abstentions)))

-- No field of FROZEN_FIELDS differs.
unfoldable pub same_frozen : Motion → Motion → Bool
same_frozen a b =
    a.decision_date == b.decision_date
    && (counts_eq a.recording.counts b.recording.counts
        && (a.recording.quorum_required == b.recording.quorum_required
            && (bool_eq a.recording.quorum_met b.recording.quorum_met
                && (same a.recording.outcome b.recording.outcome
                    && (same a.recording.outcome_recorded_by b.recording.outcome_recorded_by
                        && (bool_eq a.recording.chair_casting_vote_used
                              b.recording.chair_casting_vote_used
                            && same a.recording.closed_on b.recording.closed_on))))))

-- ForumMotion._guard_frozen; a new motion has no row before the save.
unfoldable pub guard_frozen : Bool → Option Motion → Motion → Result (Unit {0})
guard_frozen recording_outcome none m = ok tt
guard_frozen recording_outcome (some before) m =
    if recording_outcome
    then ok tt
    else if before.editable
    then ok tt
    else refuse_if (not (same_frozen before m))
        (refusal m.name modify recorded_decision_immutability)

pub meeting_forum : Option ℕ → List (ℕ × ℕ) → Option ℕ
meeting_forum none meetings = none
meeting_forum (some meeting) meetings = get meeting meetings

-- ForumMotion.validate
unfoldable pub validate_motion : Chamber → Bool → Motion → Result Motion
unfolding meeting_forum
validate_motion c recording_outcome given = do
  m ← apply_state_flags motion_doc c.workflow_field (get_flag_map c.flag_rows forum_motion) given
  guard_frozen recording_outcome (read (λ (n : Motion). n.name) m.name c.motions) m
  let meeting = meeting_forum m.meeting c.meetings
  throw_if (is_some meeting && not (holds_name meeting m.forum)) wrong_forum
  ok m

unfoldable pub save_motion : Chamber → Bool → Motion → Result (Chamber × Motion)
save_motion c recording_outcome given = do
  m ← validate_motion c recording_outcome given
  ok (record c { motions = write (λ (n : Motion). n.name) m c.motions }, m)

-- ===== src/Voting/Screen.antt =====
-- governance/voting.py: what the voting screen lets a user do.
-- `may_write` and `may_read` stand for the framework's permissions on Forum Motion and on Governance Forum.
pub mod Secretary
pub mod Own
use enterprise_management.Base.{
  ◌>>=◌, ◌>>◌, demand, ℕ, ◌+◌, Option, none, some, Bool, true, false, not, ◌&&◌, ◌||◌, List, [],
  ◌∷◌, ◌++◌, if◌then◌else◌, is_some, holds_name, contains, read, get, put, Result, ok, thrown,
  refused, throw_if, refuse_if, other, create, motion_secretary, voting_entitlement, quorum,
  unknown_ballot, unknown_outcome, forum_inactive, motion_incomplete, no_permission,
}
use enterprise_management.StateFlags.{
  Flags, is_active, is_editable, requires_review, get_flag_map, flags_for,
}
use enterprise_management.Membership.{Seat, Forum, delegate_active_on}
use enterprise_management.Voting.{
  Position, not_cast, vote_for, vote_against, abstain, recused, unknown, Vote, Motion, Chamber,
  forum_motion, outcome_field, refusal, need, validate_motion,
}
use enterprise_management.Voting.Ballots.{entitlement, open_motion, cast_vote, no_counts}
use enterprise_management.Voting.Outcome.{columns_of, cast_seats, forum_status, record_outcome}

is_secretary : Option Forum → ℕ → Bool
is_secretary none user = false
is_secretary (some f) user = holds_name f.officers.secretary user

unfoldable pub may_administer : (ℕ → Bool) → Chamber → ℕ → ℕ → Bool
unfolding is_secretary
may_administer may_write c forum user =
    if may_write user
    then true
    else is_secretary (read (λ (f : Forum). f.name) forum c.register.forums) user

standing : Option Flags → Bool
standing none = false
standing (some flags) = flags is_active && (not (flags is_editable) && not (flags requires_review))

-- `_is_standing_decision`
unfoldable pub is_standing_decision : Chamber → ℕ → Bool
unfolding standing
is_standing_decision c outcome =
    standing (flags_for (get_flag_map c.flag_rows forum_motion) outcome_field outcome)

pub record MySeat : Type 0 where
  pub membership : ℕ
  pub as_delegate : Bool
  pub acting_for : Option ℕ

-- The ballots that one entitlement row gives the user.
pub seat_rows : Option Seat → ℕ → Motion → ℕ → List MySeat
seat_rows none membership m user = []
seat_rows (some s) membership m user =
    if holds_name s.member user
    then record { membership = membership; as_delegate = false; acting_for = some user } ∷ []
    else if holds_name s.delegate user && (s.delegate_votes && delegate_active_on s m.decision_date)
    then record { membership = membership; as_delegate = true; acting_for = s.member } ∷ []
    else []

pub my_rows : Chamber → List Vote → Motion → ℕ → List MySeat
my_rows c [] m user = []
my_rows c (v ∷ votes) m user =
    seat_rows (read (λ (s : Seat). s.name) v.membership c.register.seats) v.membership m user
    ++ my_rows c votes m user

-- `_my_seats`
unfoldable pub my_seats : Chamber → Motion → ℕ → List MySeat
unfolding my_rows seat_rows
my_seats c m user = my_rows c (entitlement c m.name) m user

-- `{row["membership"]: row for row in rows}`
abbrev pub by_membership : List MySeat → List (ℕ × MySeat) → List (ℕ × MySeat)
by_membership [] d = d
by_membership (r ∷ rows) d = by_membership rows (put r.membership r d)

abbrev pub castable : Position → Bool
castable vote_for = true
castable vote_against = true
castable abstain = true
castable recused = true
castable not_cast = false
castable (unknown x) = false

-- The screen's context, which it returns, is not in the model.
unfoldable pub cast_my_vote : Chamber → ℕ → ℕ → Position → Option ℕ → ℕ → ℕ → Result Chamber
cast_my_vote c motion membership position rationale user now = do
  m ← need (read (λ (n : Motion). n.name) motion c.motions)
  mine ←
      demand (get membership (by_membership (my_seats c m user) []))
        (refused (refusal motion other voting_entitlement))
  throw_if (not (castable position)) unknown_ballot
  (d, v) ← cast_vote c m membership position (some user) rationale mine.as_delegate now
  ok d

-- `options` are the labels that the outcome field offers.
unfoldable pub record_motion_outcome :
    (ℕ → Bool) → List ℕ → Chamber → ℕ → ℕ → Bool → ℕ → ℕ → Result Chamber
record_motion_outcome may_write options c motion outcome chair_casting_vote_used user now = do
  m ← need (read (λ (n : Motion). n.name) motion c.motions)
  refuse_if (not (may_administer may_write c m.forum user)) (refusal motion other motion_secretary)
  throw_if (not (contains options outcome)) unknown_outcome
  let present = cast_seats c m.name
  status ← forum_status c m present
  refuse_if (is_standing_decision c outcome && not status.met) (refusal motion other quorum)
  (d, n) ← record_outcome c m outcome user chair_casting_vote_used (some present) now
  ok d

abbrev pub governance_forum : ℕ
governance_forum = 3

abbrev pub new_motion : ℕ → ℕ → Option ℕ → ℕ → Motion
new_motion name forum meeting decision_date = record {
  name = name;
  forum = forum;
  meeting = meeting;
  decision_date = decision_date;
  opened_on = none;
  editable = true;
  open_flag = true;
  recording = record {
    counts = columns_of (no_counts 0);
    quorum_required = 0;
    quorum_met = false;
    outcome = none;
    outcome_recorded_by = none;
    chair_casting_vote_used = false;
    closed_on = none;
  };
}

unfoldable pub insert_motion : Chamber → Motion → Result (Chamber × Motion)
insert_motion c given = do
  m ← validate_motion c false given
  ok (record c { motions = c.motions ++ m ∷ []; next_name = c.next_name + 1 }, m)

takes_decisions : Option Forum → Bool
takes_decisions none = false
takes_decisions (some f) = f.is_active

-- The reference and the wording are `none` where they are blank.
unfoldable pub propose_motion :
    (may_read may_write : ℕ → Bool)
    → Chamber
    → ℕ
    → (reference wording decision_date meeting : Option ℕ) → ℕ
    → ℕ
    → Result (Chamber × ℕ)
unfolding takes_decisions
propose_motion may_read may_write c forum reference wording decision_date meeting user now = do
  throw_if (not (may_read user)) no_permission
  refuse_if (not (may_administer may_write c forum user))
      (record (refusal forum create motion_secretary) { subject_doctype = governance_forum })
  throw_if (not (takes_decisions (read (λ (g : Forum). g.name) forum c.register.forums)))
      forum_inactive
  throw_if (not (is_some reference) || not (is_some wording)) motion_incomplete
  day ← demand decision_date (thrown motion_incomplete)
  (d, m) ← insert_motion c (new_motion c.next_name forum meeting day)
  (e, created) ← open_motion d m none now
  ok (e, m.name)

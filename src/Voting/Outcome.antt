-- ===== src/Voting/Outcome.antt =====
-- governance/voting.py: the recording of a motion's outcome.
use enterprise_management.Base.{
  ◌>>=◌, ◌>>◌, none, holds_name, is_after, is_before, ◌==◌, ◌&&◌, lex, sort_by, ℕ, Option, some,
  Bool, true, not, List, map, filter, or_else, read, Result, ok, throw_if, outcome_already_recorded,
}
use enterprise_management.Membership.{Forum, QuorumStatus, quorum_status}
use enterprise_management.Voting.{
  Vote, Motion, Chamber, Counts, Counters, not_cast, position_eq, need, save_motion,
}
use enterprise_management.Voting.Ballots.{entitlement, tally}

-- The seats whose ballot is cast.
unfoldable pub cast_seats : Chamber → ℕ → List ℕ
cast_seats c motion =
    map (λ (v : Vote). v.membership)
      (filter (λ (v : Vote). not (position_eq v.position not_cast)) (entitlement c motion))

-- `motion.update(counts)`: of what the tally returns, the columns that a motion has.
abbrev pub columns_of : Counts → Counters
columns_of n = record {
  eligible_voter_count = n.eligible_voter_count;
  votes_cast = n.votes_cast;
  votes_for = n.votes_for;
  votes_against = n.votes_against;
  abstentions = n.abstentions;
}

-- The fields that are set before the save.
unfoldable pub recorded : Motion → Counts → QuorumStatus → ℕ → ℕ → Bool → ℕ → Motion
recorded m counts status outcome recorded_by chair_casting_vote_used now = record m {
  recording = record {
    counts = columns_of counts;
    quorum_required = status.required;
    quorum_met = status.met;
    outcome = some outcome;
    outcome_recorded_by = some recorded_by;
    chair_casting_vote_used = chair_casting_vote_used;
    closed_on = some now;
  };
}

unfoldable pub forum_status : Chamber → Motion → List ℕ → Result QuorumStatus
forum_status c m present = do
  f ← need (read (λ (f : Forum). f.name) m.forum c.register.forums)
  ok (quorum_status c.register f m.decision_date (some present))

-- `recorded_by` is the user given, or the session's.
unfoldable pub record_outcome :
    Chamber → Motion → ℕ → ℕ → Bool → Option (List ℕ) → ℕ → Result (Chamber × Motion)
record_outcome c m outcome recorded_by chair_casting_vote_used present now = do
  throw_if (not m.editable) outcome_already_recorded
  status ← forum_status c m (or_else present (cast_seats c m.name))
  save_motion c true
      (recorded m (tally c m.name) status outcome recorded_by chair_casting_vote_used now)

abbrev pub has_outcome : Option ℕ → Motion → Bool
has_outcome none m = true
has_outcome (some outcome) m = holds_name m.recording.outcome outcome

-- The filters of `decisions_for`.
abbrev pub is_listed : ℕ → Option ℕ → Option ℕ → Option ℕ → Motion → Bool
is_listed forum from_date to_date outcome m =
    m.forum == forum
    && not (is_after from_date m.decision_date)
    && not (is_before to_date m.decision_date)
    && has_outcome outcome m

-- `decision_date desc, creation desc`
abbrev pub latest_first : (Motion → ℕ) → Motion → Motion → Bool
latest_first creation a b = lex b.decision_date (creation b) a.decision_date (creation a)

unfoldable pub decisions_for :
    (Motion → ℕ) → Chamber → ℕ → Option ℕ → Option ℕ → Option ℕ → List Motion
decisions_for creation c forum from_date to_date outcome =
    sort_by (latest_first creation) (filter (is_listed forum from_date to_date outcome) c.motions)

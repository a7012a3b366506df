-- ===== src/Voting/Ballots.antt =====
-- governance/voting.py: who is entitled, the casting of a vote, and the tally.
pub mod Entitled
pub mod Count
pub mod Opening
use enterprise_management.Base.{
  ◌>>=◌, ◌>>◌, demand, ℕ, ◌+◌, ◌/◌, Option, none, some, Bool, true, false, not, ◌&&◌, List, [], ◌∷◌,
  ◌++◌, if◌then◌else◌, ◌==◌, is_some, or_else, filter, any, find, read, write, length, Result, ok,
  refused, throw_if, refuse_if, motion_closed, motion_outcome_recorded,
  entitlement_as_at_decision_date, other,
}
use enterprise_management.Membership.{Seat, entitled_voters_as_at, unit}
use enterprise_management.Voting.{
  Position, not_cast, vote_for, vote_against, abstain, recused, unknown, as_member, as_delegate,
  Vote, Counts, Motion, Chamber, refusal, need, insert_vote, save_vote,
}

abbrev pub is_ballot : ℕ → ℕ → Vote → Bool
is_ballot motion membership v = v.motion == motion && v.membership == membership

-- The entitlement row that `open_motion` writes for a seat.
abbrev pub entitlement_row : ℕ → ℕ → Seat → Vote
entitlement_row name motion s = record {
  name = name;
  motion = motion;
  membership = s.name;
  voter = s.member;
  voted_as = as_member;
  acting_for = none;
  position = not_cast;
  weight = unit;
  cast_on = none;
  rationale = none;
}

-- The loop's body: the chamber, and the name of the row that it creates.
pub open_seat : Seat → ℕ → ℕ → Chamber → Result (Chamber × List ℕ)
open_seat s motion now c =
    if any (is_ballot motion s.name) c.votes
    then ok (c, [])
    else do d ← insert_vote c (entitlement_row c.next_name motion s) now; ok (d, c.next_name ∷ [])

-- The loop over the seats.
pub open_seats : List Seat → ℕ → ℕ → Chamber → Result (Chamber × List ℕ)
unfolding open_seat
open_seats [] motion now c = ok (c, [])
open_seats (s ∷ seats) motion now c = do
  (c', new) ← open_seat s motion now c
  (d, created) ← open_seats seats motion now c'
  ok (d, new ++ created)

-- `motion.db_set("opened_on", now())` where it is not set yet.
abbrev pub opened : Chamber → Motion → ℕ → Chamber
opened c m now = if is_some m.opened_on then c else record c {
  motions = write (λ (n : Motion). n.name) (record m { opened_on = some now }) c.motions;
}

unfoldable pub open_motion : Chamber → Motion → Option ℕ → ℕ → Result (Chamber × List ℕ)
unfolding open_seats
open_motion c m on_date now = do
  throw_if (not m.editable) motion_closed
  let decision_date = or_else on_date m.decision_date
  (d, created) ←
      open_seats (entitled_voters_as_at c.register.seats m.forum decision_date) m.name now c
  ok (opened d m now, created)

unfoldable pub entitlement : Chamber → ℕ → List Vote
entitlement c motion = filter (λ v. v.motion == motion) c.votes

-- The fields that `cast_vote` sets before the save; the flag is `as_delegate`.
unfoldable pub mark : Bool → Chamber → Vote → ℕ → Position → Option ℕ → Option ℕ → Result Vote
mark true c v membership position voter rationale = do
  s ← need (read (λ (s : Seat). s.name) membership c.register.seats)
  ok (record v {
    position = position;
    rationale = rationale;
    voted_as = as_delegate;
    acting_for = s.member;
    voter = if is_some voter then voter else s.delegate;
  })
mark false c v membership position voter rationale = ok (record v {
  position = position;
  rationale = rationale;
  voter = if is_some voter then voter else v.voter;
})

unfoldable pub cast_vote :
    Chamber → Motion → ℕ → Position → Option ℕ → Option ℕ → Bool → ℕ → Result (Chamber × Vote)
cast_vote c m membership position voter rationale delegate now = do
  refuse_if (not m.editable) (refusal m.name other motion_outcome_recorded)
  v ←
      demand (find (is_ballot m.name membership) c.votes)
        (refused (refusal m.name other entitlement_as_at_decision_date))
  w ← mark delegate c v membership position voter rationale
  save_vote c w now

abbrev pub no_counts : ℕ → Counts
no_counts eligible = record {
  eligible_voter_count = eligible;
  votes_cast = 0;
  votes_for = 0;
  votes_against = 0;
  abstentions = 0;
  recusals = 0;
}

-- `int(row["weight"] or 1)`
abbrev pub whole_weight : ℕ → ℕ
whole_weight w = if w == 0 then 1 else w / unit

abbrev pub count_position : Position → ℕ → Counts → Counts
count_position vote_for weight n = record n {
  votes_for = n.votes_for + whole_weight weight;
  votes_cast = n.votes_cast + 1;
}
count_position vote_against weight n = record n {
  votes_against = n.votes_against + whole_weight weight;
  votes_cast = n.votes_cast + 1;
}
count_position abstain weight n = record n {
  abstentions = n.abstentions + 1;
  votes_cast = n.votes_cast + 1;
}
count_position recused weight n = record n { recusals = n.recusals + 1 }
count_position not_cast weight n = n
count_position (unknown x) weight n = n

pub tally_rows : List Vote → Counts → Counts
tally_rows [] n = n
tally_rows (v ∷ rows) n = tally_rows rows (count_position v.position v.weight n)

unfoldable pub tally : Chamber → ℕ → Counts
unfolding tally_rows
tally c motion = let rows = entitlement c motion in tally_rows rows (no_counts (length rows))

-- ===== src/Membership/Seating.antt =====
-- governance/doctype/forum_membership/forum_membership.py: the checks on a seat.
pub mod Invariants
pub mod Closing
use enterprise_management.Base.{
  write, read, demand, record_missing, or_else, ℕ, suc, ◌+◌, Option, none, some, Bool, true, false,
  not, ◌&&◌, ◌||◌, List, [], ◌∷◌, ◌++◌, map, if◌then◌else◌, ◌==◌, ltb, leb, same, is_some, is_empty,
  filter, contains, length, is_before, get, Result, ok, err, thrown, ◌>>=◌, ◌>>◌, throw_if,
  position_required, member_required, ends_before_start, own_delegate, delegate_without_vote,
  duplicate_seat, chair_already_seated, seat_cap_reached, Refusal, refused, delete,
  membership_history,
}
use enterprise_management.Membership.{
  Seat, SeatType, person, position, RoleDefaults, Register, role_defaults, sync_officers,
  OfficerField,
}

unfoldable pub apply_role_defaults : List (ℕ × RoleDefaults) → Bool → Seat → Seat
apply_role_defaults roles is_new s =
    let defaults = role_defaults roles s.forum_role in
    if s.set_voting_rights_manually
    then s
    else if is_new
    then record s {
      votes = if s.votes then s.votes else defaults.votes_by_default;
      counts_toward_quorum =
          if s.counts_toward_quorum then s.counts_toward_quorum else defaults.counts_toward_quorum;
    }
    else s

occupied : SeatType → Seat → Result (Unit {0})
occupied position s = throw_if (not (is_some s.position_title)) position_required
occupied person s = throw_if (not (is_some s.member)) member_required

abbrev both_out_of_order : Option ℕ → Option ℕ → Bool
both_out_of_order (some from) (some to) = ltb to from
both_out_of_order _ _ = false

validate_delegation : Seat → Result (Unit {0})
validate_delegation s = if not (is_some s.delegate) then ok tt else do
  throw_if (same s.delegate s.member) own_delegate
  throw_if (both_out_of_order s.delegate_from s.delegate_to) ends_before_start
  throw_if (s.delegate_votes && not s.votes) delegate_without_vote

abbrev starts_by : ℕ → Option ℕ → Bool
starts_by start none = true
starts_by start (some end) = leb start end

-- The two ranges have a day in common.
abbrev pub clashes : Seat → Seat → Bool
clashes s row = starts_by row.start_date s.end_date && starts_by s.start_date row.end_date

-- The other seats of the forum that pass the extra filter and overlap this one.
unfoldable pub overlapping : List Seat → Seat → (Seat → Bool) → List ℕ
overlapping seats s extra =
    map (λ row. row.name)
      (filter (clashes s)
        (filter (λ row. row.forum == s.forum && (not (row.name == s.name) && extra row)) seats))

pub validate_no_overlap : List Seat → Seat → Result (Unit {0})
validate_no_overlap seats s =
    if not (is_some s.member)
    then ok tt
    else throw_if (not (is_empty (overlapping seats s (λ row. same row.member s.member))))
        duplicate_seat

abbrev pub has_chair_role : List (ℕ × RoleDefaults) → Seat → Bool
has_chair_role roles s = (role_defaults roles s.forum_role).is_chair_role

pub validate_single_chair : Register → Seat → Result (Unit {0})
validate_single_chair r s =
    if not (has_chair_role r.roles s)
    then ok tt
    else throw_if (not (is_empty (overlapping r.seats s (has_chair_role r.roles))))
        chair_already_seated

validate_seat_cap : Register → Seat → Result (Unit {0})
validate_seat_cap r s =
    let cap = (role_defaults r.roles s.forum_role).max_holders in
    let held = length (overlapping r.seats s (λ row. row.forum_role == s.forum_role)) in
    if leb cap 0 then ok tt else throw_if (ltb cap (held + 1)) seat_cap_reached

-- `validate`: the seat with its defaults, if every check passes.
unfoldable pub validate : Register → Bool → Seat → Result Seat
unfolding occupied validate_delegation validate_no_overlap validate_single_chair validate_seat_cap
validate r is_new given = do
  let s = apply_role_defaults r.roles is_new given
  occupied s.seat_type s
  throw_if (is_before s.end_date s.start_date) ends_before_start
  validate_delegation s
  validate_no_overlap r.seats s
  validate_single_chair r s
  validate_seat_cap r s
  ok s

-- A new seat: the row is written, and the forum's officers follow.
unfoldable pub insert : Register → Seat → ℕ → Result Register
insert r given today = do
  s ← validate r true given
  ok (sync_officers (record r { seats = r.seats ++ s ∷ [] }) s.forum today).0

-- A save of a seat that is there: the officers follow.
unfoldable pub save_seat : Register → Seat → ℕ → Result Register
save_seat r given today = do
  s ← validate r false given
  ok (sync_officers (record r { seats = write (λ (t : Seat). t.name) s r.seats }) s.forum today).0

-- governance/membership.py: the end of a seat, today where no date is given.
unfoldable pub close_seat : Register → ℕ → (end_date end_reason : Option ℕ) → ℕ → Result Register
close_seat r membership end_date end_reason today = do
  s ← demand (read (λ (t : Seat). t.name) membership r.seats) (thrown record_missing)
  save_seat r
      (record s {
        end_date = some (or_else end_date today);
        end_reason = if is_some end_reason then end_reason else s.end_reason;
      })
      today

-- `on_trash` refuses always.
unfoldable pub on_trash : ℕ → Seat → Result (Unit {0})
on_trash forum_membership s = err (
    refused (record {
      subject_doctype = forum_membership;
      subject_name = s.name;
      attempted_action = delete;
      control = membership_history;
      retention_class = none;
      legal_hold = none;
    }))

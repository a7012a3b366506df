-- ===== src/Membership.antt =====
-- governance/membership.py: dated seats, the officers derived from them, and quorum.
-- Days are numbers. A Float column holds nine decimals: quorum values count units of 10^-9, and
-- the percentage is taken exactly, where the source multiplies doubles.
pub mod Seating
pub mod Held
pub mod Officers
pub mod Quorum
mod Tests
use enterprise_management.Base.{
  get, ℕ, suc, ◌+◌, ◌-◌, ◌*◌, ◌/◌, ◌≡◌, refl, Option, none, some, Bool, true, false, not, ◌&&◌,
  ◌||◌, List, [], ◌∷◌, ◌++◌, map, if◌then◌else◌, ◌==◌, ltb, leb, lex, same, is_some, is_after,
  is_before, filter, any, find, contains, sort_by, read, write, length, or_else,
}

pub data SeatType : Type 0 where
  person position : SeatType

pub record Seat : Type 0 where
  pub name : ℕ
  pub forum : ℕ
  pub member : Option ℕ
  pub seat_type : SeatType
  pub position_title : Option ℕ
  pub forum_role : ℕ
  pub votes : Bool
  pub counts_toward_quorum : Bool
  pub set_voting_rights_manually : Bool
  pub delegate : Option ℕ
  pub delegate_from : Option ℕ
  pub delegate_to : Option ℕ
  pub delegate_votes : Bool
  pub start_date : ℕ
  pub end_date : Option ℕ
  pub end_reason : Option ℕ
  pub docstatus : ℕ

pub record RoleDefaults : Type 0 where
  pub counts_toward_quorum : Bool
  pub votes_by_default : Bool
  pub can_attest : Bool
  pub is_chair_role : Bool
  pub is_secretary_role : Bool
  pub is_owner_role : Bool
  pub max_holders : ℕ

pub data QuorumRule : Type 0 where
  fixed_count percentage all_voting_members chair_plus_count : QuorumRule

-- The officer columns of a forum, and what they should say.
pub record OfficersOf : Type 0 where
  pub committee_chair : Option ℕ
  pub secretary : Option ℕ
  pub forum_owner : Option ℕ

pub record Forum : Type 0 where
  pub name : ℕ
  pub officers : OfficersOf
  pub quorum_rule_type : QuorumRule
  pub quorum_value : ℕ
  pub quorum_requires_chair : Bool
  pub is_active : Bool

pub record Register : Type 0 where
  pub forums : List Forum
  pub seats : List Seat
  pub roles : List (ℕ × RoleDefaults)

-- `end_date IS NULL OR end_date >= on_date`
abbrev pub ends_no_earlier : Option ℕ → ℕ → Bool
ends_no_earlier none day = true
ends_no_earlier (some e) day = leb day e

abbrev pub is_open_on : ℕ → ℕ → Seat → Bool
is_open_on forum day s =
    s.forum == forum
    && (ltb s.docstatus 2 && (leb s.start_date day && ends_no_earlier s.end_date day))

abbrev pub by_start : Seat → Seat → Bool
by_start a b = lex a.start_date a.name b.start_date b.name

unfoldable pub members_as_at : List Seat → ℕ → ℕ → List Seat
members_as_at seats forum day = sort_by by_start (filter (is_open_on forum day) seats)

held_on : Option Seat → ℕ → Bool
held_on none day = false
held_on (some row) day =
    if ltb 1 row.docstatus
    then false
    else if ltb day row.start_date
    then false
    else ends_no_earlier row.end_date day

unfoldable pub seat_held_on : List Seat → ℕ → ℕ → Bool
unfolding held_on
seat_held_on seats membership day = held_on (read (λ (s : Seat). s.name) membership seats) day

unfoldable pub entitled_voters_as_at : List Seat → ℕ → ℕ → List Seat
entitled_voters_as_at seats forum day =
    filter (λ s. s.votes && is_some s.member) (members_as_at seats forum day)

unfoldable pub quorum_counting_seats_as_at : List Seat → ℕ → ℕ → List Seat
quorum_counting_seats_as_at seats forum day =
    filter (λ s. s.counts_toward_quorum) (members_as_at seats forum day)

abbrev no_defaults : RoleDefaults
no_defaults = record {
  counts_toward_quorum = false;
  votes_by_default = false;
  can_attest = false;
  is_chair_role = false;
  is_secretary_role = false;
  is_owner_role = false;
  max_holders = 0;
}

unfoldable pub role_defaults : List (ℕ × RoleDefaults) → ℕ → RoleDefaults
role_defaults roles forum_role = or_else (get forum_role roles) no_defaults

unfoldable pub delegate_active_on : Seat → ℕ → Bool
delegate_active_on seat day =
    if not (is_some seat.delegate)
    then false
    else if is_after seat.delegate_from day
    then false
    else if is_before seat.delegate_to day
    then false
    else true

-- `if flags.get(flag) and not derived[fieldname]`
abbrev pub first_holder : Bool → Option ℕ → Option ℕ → Option ℕ
first_holder flag member none = if flag then member else none
first_holder flag member (some m) = some m

derive_from : List (ℕ × RoleDefaults) → List Seat → OfficersOf → OfficersOf
derive_from roles [] derived = derived
derive_from roles (s ∷ seats) derived =
    let flags = role_defaults roles s.forum_role in
    derive_from roles seats (
      if is_some s.member
      then record {
        committee_chair = first_holder flags.is_chair_role s.member derived.committee_chair;
        secretary = first_holder flags.is_secretary_role s.member derived.secretary;
        forum_owner = first_holder flags.is_owner_role s.member derived.forum_owner;
      }
      else derived)

unfoldable pub derive_officers : Register → ℕ → ℕ → OfficersOf
unfolding derive_from
derive_officers r forum day =
    derive_from r.roles (members_as_at r.seats forum day)
      (record { committee_chair = none; secretary = none; forum_owner = none })

pub data OfficerField : Type 0 where
  chair_field secretary_field owner_field : OfficerField

abbrev pub officer : OfficersOf → OfficerField → Option ℕ
officer o chair_field = o.committee_chair
officer o secretary_field = o.secretary
officer o owner_field = o.forum_owner

abbrev pub officer_fields : List OfficerField
officer_fields = chair_field ∷ secretary_field ∷ owner_field ∷ []

abbrev set_officer : OfficersOf → OfficerField → Option ℕ → OfficersOf
set_officer o chair_field v = record o { committee_chair = v }
set_officer o secretary_field v = record o { secretary = v }
set_officer o owner_field v = record o { forum_owner = v }

is_synced : OfficersOf → OfficerField → OfficersOf → Bool
is_synced derived field stored = same (officer stored field) (officer derived field)

write_field : OfficersOf → OfficerField → OfficersOf → OfficersOf
unfolding is_synced
write_field derived field stored =
    if is_synced derived field stored
    then stored
    else set_officer stored field (officer derived field)

-- The loop over the derived fields: the columns after its writes, and what was written.
write_officers :
    OfficersOf → List OfficerField → OfficersOf → OfficersOf × List (OfficerField × Option ℕ)
write_officers derived [] stored = (stored, [])
write_officers derived (field ∷ fields) stored =
    let (after, changed) = write_officers derived fields (write_field derived field stored) in
    (
      after,
      if is_synced derived field stored then changed else (field, officer derived field) ∷ changed,
    )

sync_doc : Register → ℕ → Option Forum → Register × List (OfficerField × Option ℕ)
unfolding write_officers write_field
sync_doc r today none = (r, [])
sync_doc r today (some doc) =
    let (after, changed) =
      write_officers (derive_officers r doc.name today) officer_fields doc.officers in
    (
      record r {
        forums = write (λ (f : Forum). f.name) (record doc { officers = after }) r.forums;
      },
      changed,
    )

unfoldable pub sync_officers : Register → ℕ → ℕ → Register × List (OfficerField × Option ℕ)
unfolding sync_doc
sync_officers r forum today = sync_doc r today (read (λ (f : Forum). f.name) forum r.forums)

pub record Drift : Type 0 where
  pub forum : ℕ
  pub field : OfficerField
  pub stored : Option ℕ
  pub derived : Option ℕ

drift_fields : Forum → OfficersOf → List OfficerField → List Drift
unfolding is_synced
drift_fields f derived [] = []
drift_fields f derived (field ∷ fields) =
    let rest = drift_fields f derived fields in
    if is_synced derived field f.officers
    then rest
    else record {
      forum = f.name;
      field = field;
      stored = officer f.officers field;
      derived = officer derived field;
    }
      ∷ rest

-- The drift of one forum.
unfoldable pub forum_drift : Register → ℕ → Forum → List Drift
unfolding drift_fields
forum_drift r today f = drift_fields f (derive_officers r f.name today) officer_fields

drift_of : Register → ℕ → List Forum → List Drift
drift_of r today [] = []
drift_of r today (f ∷ fs) = forum_drift r today f ++ drift_of r today fs

-- With no list of forums, every forum is swept.
unfoldable pub officer_drift : Register → ℕ → List Drift
unfolding drift_of
officer_drift r today = drift_of r today r.forums

abbrev pub unit : ℕ
unit = 1000000000

-- Rounded up, for `math.ceil(voters * value / 100.0)`.
abbrev pub percent_of : ℕ → ℕ → ℕ
percent_of voters value = (voters * value + (100 * unit - 1)) / (100 * unit)

required_by : QuorumRule → ℕ → ℕ → ℕ
required_by percentage value voting_seats = percent_of voting_seats value * unit
required_by all_voting_members value voting_seats = voting_seats * unit
required_by chair_plus_count value voting_seats = value
required_by fixed_count value voting_seats = value

-- In units of 10^-9; the text of the basis is left out.
unfoldable pub quorum_requirement : Forum → ℕ → ℕ
unfolding required_by
quorum_requirement f voting_seats = required_by f.quorum_rule_type f.quorum_value voting_seats

pub record QuorumStatus : Type 0 where
  pub counting_seats : ℕ
  pub entitled_voters : ℕ
  pub counted : ℕ
  pub required : ℕ
  pub met : Bool
  pub chair_present : Bool

abbrev pub needs_chair_rule : QuorumRule → Bool
needs_chair_rule chair_plus_count = true
needs_chair_rule _ = false

-- With no attendance given, the occupied counting seats.
abbrev pub is_present : Option (List ℕ) → Seat → Bool
is_present none s = is_some s.member
is_present (some present) s = contains present s.name

unfoldable pub quorum_status : Register → Forum → ℕ → Option (List ℕ) → QuorumStatus
quorum_status r forum day present =
    let counting = quorum_counting_seats_as_at r.seats forum.name day in
    let voting = entitled_voters_as_at r.seats forum.name day in
    let counted = filter (is_present present) counting in
    let required = quorum_requirement forum (length voting) in
    let chair_present =
      any (λ (s : Seat). (role_defaults r.roles s.forum_role).is_chair_role) counted in
    let requires_chair = forum.quorum_requires_chair || needs_chair_rule forum.quorum_rule_type in
    record {
      counting_seats = length counting;
      entitled_voters = length voting;
      counted = length counted;
      required = required;
      met =
          if requires_chair && not chair_present
          then false
          else leb required (length counted * unit);
      chair_present = chair_present;
    }

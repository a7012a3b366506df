-- ===== src/Delegation.antt =====
-- consilium_core/delegation.py and the Authority Delegation controller.
pub mod Cover
pub mod Sweep
mod Tests
use enterprise_management.Base.{
  ℕ, ◌+◌, Option, none, some, Bool, true, false, not, ◌&&◌, ◌||◌, List, [], ◌∷◌, map, if◌then◌else◌,
  ◌==◌, is_some, holds_name, same, is_after, is_before, bool_eq, filter, any, contains, is_empty,
  or_else, Result, ok, ◌>>=◌, ◌>>◌, throw_if, different_people, ends_before_start,
  scope_doctype_missing, scope_record_missing, no_actions,
}

pub data ScopeType : Type 0 where
  all_records by_doctype one_record forum : ScopeType

pub record Delegation : Type 0 where
  pub name : ℕ
  pub delegator : ℕ
  pub delegate : ℕ
  pub valid_from : Option ℕ
  pub valid_to : Option ℕ
  pub is_active : Bool
  pub scope_type : ScopeType
  pub scope_doctype : Option ℕ
  pub scope_record : Option ℕ
  pub delegated_actions : List ℕ

-- The seeded Delegable Action codes.
abbrev pub action_approve : ℕ
action_approve = 0

unfoldable pub is_within_dates : Delegation → ℕ → Bool
is_within_dates d on_date =
    if is_after d.valid_from on_date
    then false
    else if is_before d.valid_to on_date
    then false
    else true

pub refresh_active_flag : Delegation → ℕ → Delegation
refresh_active_flag d today = record d { is_active = is_within_dates d today }

-- The sweep: the table as it leaves it, and the number of rows that it wrote.
pub refresh_all : List Delegation → ℕ → List Delegation × ℕ
refresh_all [] today = ([], 0)
refresh_all (d ∷ ds) today =
    let (rest, changed) = refresh_all ds today in
    let wanted = is_within_dates d today in
    if bool_eq d.is_active wanted
    then (d ∷ rest, changed)
    else (record d { is_active = wanted } ∷ rest, changed + 1)

covers_as : ScopeType → Delegation → Option ℕ → Option ℕ → Bool
covers_as all_records d doctype name = true
covers_as by_doctype d doctype name = same d.scope_doctype doctype
covers_as one_record d doctype name = same d.scope_doctype doctype && same d.scope_record name
covers_as forum d doctype name = same d.scope_doctype doctype && same d.scope_record name

unfoldable pub covers_scope : Delegation → Option ℕ → Option ℕ → Bool
unfolding covers_as
covers_scope d doctype name = covers_as d.scope_type d doctype name

-- The filter on `delegate` is applied only where one is given.
unfoldable pub is_candidate : ℕ → Option ℕ → Delegation → Bool
is_candidate delegator delegate d =
    d.delegator == delegator
    && (d.is_active && (if is_some delegate then holds_name delegate d.delegate else true))

-- The tests of the loop's body.
unfoldable pub is_live_for : ℕ → Option ℕ → Option ℕ → ℕ → Delegation → Bool
is_live_for action doctype name on_date d =
    if not (is_within_dates d on_date)
    then false
    else if not (contains d.delegated_actions action)
    then false
    else if not (covers_scope d doctype name)
    then false
    else true

unfoldable pub find_delegations :
    List Delegation → ℕ → ℕ → Option ℕ → Option ℕ → Option ℕ → ℕ → List ℕ
find_delegations table delegator action doctype name delegate on_date =
    map (λ d. d.name)
      (filter (is_live_for action doctype name on_date)
        (filter (is_candidate delegator delegate) table))

pub data Reason : Type 0 where
  acting_for_themselves : Reason
  acting_under_delegation : ℕ → Reason
  no_live_delegation : (acting_user action accountable_user : ℕ) → Reason

pub record Resolution : Type 0 where
  pub permitted : Bool
  pub delegation : Option ℕ
  pub reason : Reason

-- `if delegations:` and what follows it.
resolve_among : List ℕ → ℕ → ℕ → ℕ → Resolution
resolve_among (d ∷ ds) acting_user action accountable_user = record {
  permitted = true;
  delegation = some d;
  reason = acting_under_delegation d;
}
resolve_among [] acting_user action accountable_user = record {
  permitted = false;
  delegation = none;
  reason = no_live_delegation acting_user action accountable_user;
}

unfoldable pub resolve_actor : List Delegation → ℕ → ℕ → ℕ → Option ℕ → Option ℕ → ℕ → Resolution
unfolding resolve_among
resolve_actor table accountable_user action acting_user doctype name today =
    if acting_user == accountable_user
    then record { permitted = true; delegation = none; reason = acting_for_themselves }
    else resolve_among
        (find_delegations table accountable_user action doctype name (some acting_user) today)
        acting_user action accountable_user

validate_scope : ScopeType → Delegation → Result (Unit {0})
validate_scope all_records d = ok tt
validate_scope by_doctype d = throw_if (not (is_some d.scope_doctype)) scope_doctype_missing
validate_scope one_record d = do
  throw_if (not (is_some d.scope_doctype)) scope_doctype_missing
  throw_if (not (is_some d.scope_record)) scope_record_missing
validate_scope forum d = do
  throw_if (not (is_some d.scope_doctype)) scope_doctype_missing
  throw_if (not (is_some d.scope_record)) scope_record_missing

-- The loop over the rows only shows messages, so it is not in the model.
validate_actions : Delegation → Result (Unit {0})
validate_actions d = throw_if (is_empty d.delegated_actions) no_actions

-- `getdate` of a missing date is today's.
unfoldable pub validate : Delegation → ℕ → Result Delegation
unfolding validate_scope validate_actions
validate d today = do
  throw_if (d.delegator == d.delegate) different_people
  throw_if (is_before d.valid_to (or_else d.valid_from today)) ends_before_start
  validate_scope d.scope_type d
  validate_actions d
  ok (refresh_active_flag d today)

-- ===== src/StateFlags.antt =====
-- consilium_core/state_flags.py: semantic flags derived from configured state labels.
-- The cache in front of `get_flag_map` holds what it would compute, and is not in the model.
pub mod Order
pub mod Applied
pub mod Refusals
pub mod Keeps
use enterprise_management.Base.{
  get, put, ℕ, ◌≡◌, Option, none, some, Bool, true, false, not, ◌&&◌, ◌||◌, List, [], ◌∷◌, ◌++◌,
  if◌then◌else◌, ◌==◌, holds_name, filter, Result, ok, err, thrown, state_flags_not_configured,
  ◌>>=◌,
}

-- FLAG_FIELDS
pub data Flag : Type 0 where
  is_editable is_active requires_review is_open is_committable requires_statement : Flag
  is_affirmative : Flag

abbrev pub flag_fields : List Flag
flag_fields =
    is_editable ∷ is_active ∷ requires_review ∷ is_open ∷ is_committable ∷ requires_statement
    ∷ is_affirmative ∷ []

abbrev pub Flags : Type 0
Flags = Flag → Bool

-- A Workflow State Flag row.
pub record StateRow : Type 0 where
  pub target_doctype : ℕ
  pub state_field : ℕ
  pub state_value : ℕ
  pub flags : Flags

abbrev pub ByValue : Type 0
ByValue = List (ℕ × Flags)

abbrev pub FlagMap : Type 0
FlagMap = List (ℕ × ByValue)

abbrev pub values_of : Option ByValue → ByValue
values_of none = []
values_of (some by_value) = by_value

-- `mapping.setdefault(field, {})[value] = flags`
abbrev pub set_row : StateRow → FlagMap → FlagMap
set_row r mapping =
    put r.state_field (put r.state_value r.flags (values_of (get r.state_field mapping))) mapping

add_rows : List StateRow → FlagMap → FlagMap
add_rows [] mapping = mapping
add_rows (r ∷ rows) mapping = add_rows rows (set_row r mapping)

unfoldable pub get_flag_map : List StateRow → ℕ → FlagMap
unfolding add_rows
get_flag_map rows doctype = add_rows (filter (λ r. r.target_doctype == doctype) rows) []

unfoldable pub flags_for : FlagMap → ℕ → ℕ → Option Flags
flags_for mapping state_field state_value = get state_value (values_of (get state_field mapping))

-- `sorted` is stable and its key is a Boolean: the fields with a false key come first.
unfoldable pub in_application_order : Option ℕ → FlagMap → FlagMap
in_application_order workflow_field [] = []
in_application_order workflow_field (item ∷ []) = item ∷ []
in_application_order workflow_field (item ∷ next ∷ more) =
    filter (λ i. not (holds_name workflow_field i.0)) (item ∷ next ∷ more)
    ++ filter (λ i. holds_name workflow_field i.0) (item ∷ next ∷ more)

abbrev pub workflow_state : ℕ
workflow_state = 0

abbrev pub flag_eq : Flag → Flag → Bool
flag_eq is_editable is_editable = true
flag_eq is_active is_active = true
flag_eq requires_review requires_review = true
flag_eq is_open is_open = true
flag_eq is_committable is_committable = true
flag_eq requires_statement requires_statement = true
flag_eq is_affirmative is_affirmative = true
flag_eq _ _ = false

-- What `apply_state_flags` uses of a document and its meta, and the laws of `set`.
pub record Stateful (D : Type 0) : Type 0 where
  pub has_field : ℕ → Bool
  pub has_flag : Flag → Bool
  pub value : D → ℕ → Option ℕ
  pub flag : D → Flag → Bool
  pub set : D → Flag → Bool → D
  pub value-set :
      (d : D) (f : Flag) (b : Bool) (field : ℕ) → value (set d f b) field ≡ value d field
  pub flag-set :
      (d : D) (f g : Flag) (b : Bool)
      → has_flag f ≡ true
      → flag (set d f b) g ≡ (if flag_eq f g then b else flag d g)

module _ {D : Type 0} (s : Stateful D) where
  open s use {has_field, has_flag, value, set}

  -- `for flag, flag_value in flags.items()`
  unfoldable pub set_flags : List Flag → Flags → D → D
  set_flags [] flags d = d
  set_flags (f ∷ fs) flags d = set_flags fs flags (if has_flag f then set d f (flags f) else d)

  abbrev pub applies_to : ℕ → Bool
  applies_to state_field = has_field state_field || state_field == workflow_state

  unfoldable pub apply_value : Option ℕ → ByValue → D → Result D
  apply_value none by_value d = ok d
  apply_value (some v) by_value d = elim (get v by_value) [
    | none ↦ err (thrown state_flags_not_configured)
    | some flags ↦ ok (set_flags flag_fields flags d)
  ]

  unfoldable pub apply_field : ℕ × ByValue → D → Result D
  unfolding apply_value
  apply_field (state_field, by_value) d =
      if applies_to state_field then apply_value (value d state_field) by_value d else ok d

  unfoldable pub apply_fields : FlagMap → D → Result D
  apply_fields [] d = ok d
  apply_fields (item ∷ items) d = do d' ← apply_field item d; apply_fields items d'

  -- An empty mapping has no fields to apply.
  unfoldable pub apply_state_flags : Option ℕ → FlagMap → D → Result D
  unfolding apply_fields
  apply_state_flags workflow_field mapping d =
      apply_fields (in_application_order workflow_field mapping) d

-- ===== src/Membership/Officers.antt =====
-- The officer fields: what they are derived as, and that a sync leaves no drift.
use enterprise_management.Base.{
  ℕ, ◌≡◌, refl, ◌∙◌, ap, Option, none, some, Bool, true, false, ◌&&◌, List, [], ◌∷◌, if◌then◌else◌,
  is_some, same_refl, find, read, read-write_self, arith, find-mem, ==_iff, ◌==◌, &&_parts, same→eq,
  any,
}
use enterprise_management.Membership.{
  Seat, RoleDefaults, Forum, Register, OfficersOf, first_holder, write_field, is_synced,
  OfficerField, chair_field, secretary_field, owner_field, officer, role_defaults, members_as_at,
  derive_from, derive_officers, officer_fields, write_officers, sync_doc, sync_officers,
  drift_fields, forum_drift,
}

abbrev pub officer_flag : OfficerField → RoleDefaults → Bool
officer_flag chair_field d = d.is_chair_role
officer_flag secretary_field d = d.is_secretary_role
officer_flag owner_field d = d.is_owner_role

-- An occupied seat whose role carries the field's flag.
abbrev pub is_officer : List (ℕ × RoleDefaults) → OfficerField → Seat → Bool
is_officer roles field s = is_some s.member && officer_flag field (role_defaults roles s.forum_role)

abbrev pub holder : Option Seat → Option ℕ
holder none = none
holder (some s) = s.member

abbrev none_yet : OfficersOf
none_yet = record { committee_chair = none; secretary = none; forum_owner = none }

-- One seat of the loop.
abbrev note : RoleDefaults → Seat → OfficersOf → OfficersOf
note flags s acc =
    if is_some s.member
    then record {
      committee_chair = first_holder flags.is_chair_role s.member acc.committee_chair;
      secretary = first_holder flags.is_secretary_role s.member acc.secretary;
      forum_owner = first_holder flags.is_owner_role s.member acc.forum_owner;
    }
    else acc

abbrev or_then : Option ℕ → Option ℕ → Option ℕ
or_then none o = o
or_then (some m) o = some m

note-field :
    (flags : RoleDefaults) (s : Seat) (acc : OfficersOf) (field : OfficerField)
    → officer (note flags s acc) field
      ≡ or_then
          (officer acc field)
          (if is_some s.member && officer_flag field flags then s.member else none)
note-field flags s acc chair_field = ground arith
note-field flags s acc secretary_field = ground arith
note-field flags s acc owner_field = ground arith

or_then_assoc : (a b c : Option ℕ) → or_then (or_then a b) c ≡ or_then a (or_then b c)
or_then_assoc none b c = refl
or_then_assoc (some m) b c = refl

first_else :
    (s : Seat) (officer : Bool) (found : Option Seat)
    → (officer ≡ true → is_some s.member ≡ true)
    → or_then (if officer then s.member else none) (holder found)
      ≡ holder (if officer then some s else found)
first_else s officer found h = ground arith

derive_from-find :
    (roles : List (ℕ × RoleDefaults)) (field : OfficerField) (seats : List Seat) (acc : OfficersOf)
    → officer (derive_from roles seats acc) field
      ≡ or_then (officer acc field) (holder (find (is_officer roles field) seats))
unfolding derive_from
derive_from-find roles field [] acc = ground arith
derive_from-find roles field (s ∷ seats) acc =
    let flags = role_defaults roles s.forum_role in
    derive_from-find roles field seats (note flags s acc)
    ∙ ap (λ (o : Option ℕ). or_then o (holder (find (is_officer roles field) seats)))
        (note-field flags s acc field)
    ∙ or_then_assoc (officer acc field) _ _
    ∙ ap (or_then (officer acc field)) (
        first_else s (is_officer roles field s) (find (is_officer roles field) seats)
          (λ h. (&&_parts _ _ h).0))

-- Each officer field is derived as the member of the first seat, by start date and name, that is
-- open on the day, occupied, and of a role with the field's flag; without such a seat it is empty.
derive_officers-find :
    (r : Register) (forum day : ℕ) (field : OfficerField)
    → officer (derive_officers r forum day) field
      ≡ holder (find (is_officer r.roles field) (members_as_at r.seats forum day))
unfolding derive_officers
derive_officers-find r forum day field =
    derive_from-find r.roles field (members_as_at r.seats forum day) none_yet ∙ starts field
  where
    starts :
        (field : OfficerField)
        → or_then
            (officer none_yet field)
            (holder (find (is_officer r.roles field) (members_as_at r.seats forum day)))
          ≡ holder (find (is_officer r.roles field) (members_as_at r.seats forum day))
    starts chair_field = refl
    starts secretary_field = refl
    starts owner_field = refl

abbrev field_eq : OfficerField → OfficerField → Bool
field_eq chair_field chair_field = true
field_eq secretary_field secretary_field = true
field_eq owner_field owner_field = true
field_eq _ _ = false

officer-write_field :
    (derived : OfficersOf) (f g : OfficerField) (stored : OfficersOf)
    → officer (write_field derived f stored) g
      ≡ (if field_eq f g then officer derived g else officer stored g)
unfolding write_field is_synced
officer-write_field derived f g stored =
    ground (arith, same→eq (officer stored f) (officer derived f))

-- The fields after the writes.
officer-write_officers :
    (derived : OfficersOf) (fields : List OfficerField) (stored : OfficersOf) (g : OfficerField)
    → officer (write_officers derived fields stored).0 g
      ≡ (if any (λ f. field_eq f g) fields then officer derived g else officer stored g)
unfolding write_officers
officer-write_officers derived [] stored g = refl
officer-write_officers derived (f ∷ fields) stored g =
    officer-write_officers derived fields (write_field derived f stored) g
    ∙ ground (arith, officer-write_field derived f g stored)

all_stored :
    (derived stored : OfficersOf) (g : OfficerField)
    → officer (write_officers derived officer_fields stored).0 g ≡ officer derived g
all_stored derived stored chair_field =
    officer-write_officers derived officer_fields stored chair_field
all_stored derived stored secretary_field =
    officer-write_officers derived officer_fields stored secretary_field
all_stored derived stored owner_field =
    officer-write_officers derived officer_fields stored owner_field

drift_fields-nil :
    (f : Forum) (derived : OfficersOf) (fields : List OfficerField)
    → ((g : OfficerField) → officer f.officers g ≡ officer derived g)
    → drift_fields f derived fields ≡ []
unfolding drift_fields is_synced
drift_fields-nil f derived [] h = refl
drift_fields-nil f derived (g ∷ fields) h =
    rw (h g, same_refl (officer derived g)) (drift_fields-nil f derived fields h)

-- After a sync the forum is still there under its name, and the sweep finds no drift in it.
sync_officers-forum_drift :
    (r : Register) (forum today : ℕ) {doc : Forum}
    → read (λ (f : Forum). f.name) forum r.forums ≡ some doc
    → let after = (sync_officers r forum today).0 in
      (doc' : Forum) × (read (λ (f : Forum). f.name) forum after.forums ≡ some doc')
      × (forum_drift after today doc' ≡ [])
unfolding sync_officers sync_doc forum_drift derive_officers
sync_officers-forum_drift r forum today {doc} found =
    let derived = derive_officers r doc.name today in
    let doc' : Forum = record doc {
      officers = (write_officers derived officer_fields doc.officers).0;
    } in
    let is_forum =
      (==_iff doc.name forum).0 (find-mem (λ (f : Forum). f.name == forum) r.forums found).1 in
    rw found (
      doc',
      read-write_self (λ (f : Forum). f.name) doc' forum r.forums is_forum found,
      drift_fields-nil doc' _ officer_fields (all_stored derived doc.officers),
    )

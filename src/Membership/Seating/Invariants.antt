-- ===== src/Membership/Seating/Invariants.antt =====
-- The seats of a forum stay apart: no person in two seats at once, no two chairs at once.
use enterprise_management.Base.{
  ℕ, ◌≤◌, ◌≡◌, refl, sym, ◌∙◌, ap, subst, ◌≢◌, ◌⊎◌, inl, inr, Option, none, some, Bool, true, not,
  ◌&&◌, List, [], ◌∷◌, ◌++◌, Memᴰ, ◌==◌, same, same→eq, same_refl, is_some, is_empty, filter-mem,
  uncons, map-mem, NotOverBy, ok, >>=-eq-ok, >>-eq-ok, ok-injective, throw_if, arith,
  ends_before_start, is_before,
}
use enterprise_management.Membership.{Seat, Register, Forum, RoleDefaults, sync_officers, sync_doc}
use enterprise_management.Membership.Seating.{
  apply_role_defaults, clashes, starts_by, overlapping, has_chair_role, occupied,
  validate_delegation, validate_no_overlap, validate_single_chair, validate_seat_cap, validate,
  insert,
}

-- The seat's dates take in the day.
abbrev pub Spans : Seat → ℕ → Type 0
Spans s day = (s.start_date ≤ day) × NotOverBy s.end_date day

starts_by-NotOverBy :
    (start day : ℕ) (end : Option ℕ) → start ≤ day → NotOverBy end day → starts_by start end ≡ true
starts_by-NotOverBy start day none a b = refl
starts_by-NotOverBy start day (some e) a b = ground arith

Spans-clashes : (s t : Seat) (day : ℕ) → Spans s day → Spans t day → clashes s t ≡ true
Spans-clashes s t day a b = rw (
  starts_by-NotOverBy t.start_date day s.end_date b.0 a.1,
  starts_by-NotOverBy s.start_date day t.end_date a.0 b.1,
)

no_members {ℓ} : {A : Type ℓ} {a : A} (xs : List A) → is_empty xs ≡ true → ¬ Memᴰ a xs
no_members [] h m = elim m [ ]
no_members (x ∷ xs) h m = cc

overlapping-none :
    (seats : List Seat) (s : Seat) (extra : Seat → Bool) {t : Seat}
    → is_empty (overlapping seats s extra) ≡ true
    → Memᴰ t seats
    → t.forum ≡ s.forum
    → t.name ≢ s.name
    → extra t ≡ true
    → ¬ (clashes s t ≡ true)
unfolding overlapping
overlapping-none seats s extra {t} h m forum other e c = no_members _ h (
    map-mem (λ (row : Seat). row.name)
      (filter-mem (clashes s)
        (filter-mem (λ row. row.forum == s.forum && (not (row.name == s.name) && extra row)) m
          (ground arith))
        c))

-- Two seats that are related, on one forum and of different names, never span one day.
abbrev pub Apart : (Seat → Seat → Bool) → List Seat → Type 0
Apart related seats =
    (s t : Seat)
    → Memᴰ s seats
    → Memᴰ t seats
    → s.forum ≡ t.forum
    → s.name ≢ t.name
    → related s t ≡ true
    → (day : ℕ) → Spans s day
    → ¬ Spans t day

-- Two seats of one person.
abbrev pub same_member : Seat → Seat → Bool
same_member s t = is_some s.member && same t.member s.member

-- Two chair seats.
abbrev pub both_chairs : List (ℕ × RoleDefaults) → Seat → Seat → Bool
both_chairs roles s t = has_chair_role roles s && has_chair_role roles t

snoc-cases {ℓ} : {A : Type ℓ} {a b : A} (xs : List A) → Memᴰ a (xs ++ b ∷ []) → Memᴰ a xs ⊎ (a ≡ b)
snoc-cases [] m = elim (uncons m) [ inl e ↦ inr e | inr n ↦ elim n [ ] ]
snoc-cases (x ∷ xs) m = elim (uncons m) [
  | inl e ↦ inl (Memᴰ.head e)
  | inr n ↦ elim (snoc-cases xs n) [ inl k ↦ inl (Memᴰ.tail k) | inr e ↦ inr e ]
]

module _ (related : Seat → Seat → Bool)
    (symmetric : (s t : Seat) → related s t ≡ true → related t s ≡ true) where
  Apart-snoc :
      (seats : List Seat) (new : Seat)
      → Apart related seats
      → ((t : Seat)
          → Memᴰ t seats
          → t.forum ≡ new.forum
          → t.name ≢ new.name
          → related new t ≡ true
          → ¬ (clashes new t ≡ true))
      → Apart related (seats ++ new ∷ [])
  Apart-snoc seats new apart clear s t ms mt forum other rel day a b = elim (snoc-cases seats ms) [
    | inl os ↦ elim (snoc-cases seats mt) [
      | inl ot ↦ apart s t os ot forum other rel day a b
      | inr et ↦
          clear s os (rw et at forum) (rw et at other) (symmetric s new (rw et at rel))
            (Spans-clashes new s day (subst (λ (u : Seat). Spans u day) et b) a)
    ]
    | inr es ↦ elim (snoc-cases seats mt) [
      | inl ot ↦
          clear t ot (sym (rw es at forum)) (λ e. (rw es at other) (sym e)) (rw es at rel)
            (Spans-clashes new t day (subst (λ (u : Seat). Spans u day) es a) b)
      | inr et ↦ other (ap (λ (u : Seat). u.name) (es ∙ sym et))
    ]
  ]

seats-sync_doc :
    (r : Register) (today : ℕ) (o : Option Forum) → (sync_doc r today o).0.seats ≡ r.seats
unfolding sync_doc
seats-sync_doc r today none = refl
seats-sync_doc r today (some doc) = refl

pub seats-sync_officers :
    (r : Register) (forum today : ℕ) → (sync_officers r forum today).0.seats ≡ r.seats
unfolding sync_officers
seats-sync_officers r forum today = seats-sync_doc r today _

module _ (r : Register) (is_new : Bool) (given : Seat) where
  abbrev pub filled : Seat
  filled = apply_role_defaults r.roles is_new given

  pub validate-inv :
      {s : Seat}
      → validate r is_new given ≡ ok s
      → (filled ≡ s)
        × (validate_no_overlap r.seats filled ≡ ok tt)
        × (validate_single_chair r filled ≡ ok tt)
  unfolding validate
  validate-inv h =
      let (_, h1) = >>-eq-ok (occupied filled.seat_type filled) _ h in
      let (_, h2) =
        >>-eq-ok (throw_if (is_before filled.end_date filled.start_date) ends_before_start) _ h1 in
      let (_, h3) = >>-eq-ok (validate_delegation filled) _ h2 in
      let (alone, h4) = >>-eq-ok (validate_no_overlap r.seats filled) _ h3 in
      let (one, h5) = >>-eq-ok (validate_single_chair r filled) _ h4 in
      let (_, h6) = >>-eq-ok (validate_seat_cap r filled) _ h5 in (ok-injective h6, alone, one)

no_overlap-clear :
    (seats : List Seat) (s : Seat)
    → validate_no_overlap seats s ≡ ok tt
    → (t : Seat) → Memᴰ t seats
    → t.forum ≡ s.forum
    → t.name ≢ s.name
    → same_member s t ≡ true
    → ¬ (clashes s t ≡ true)
unfolding validate_no_overlap
no_overlap-clear seats s h t m forum other rel =
    overlapping-none seats s (λ row. same row.member s.member) (ground arith) m forum other
      (ground arith)

single_chair-clear :
    (r : Register) (s : Seat)
    → validate_single_chair r s ≡ ok tt
    → (t : Seat) → Memᴰ t r.seats
    → t.forum ≡ s.forum
    → t.name ≢ s.name
    → both_chairs r.roles s t ≡ true
    → ¬ (clashes s t ≡ true)
unfolding validate_single_chair
single_chair-clear r s h t m forum other rel =
    overlapping-none r.seats s (has_chair_role r.roles) (ground arith) m forum other (ground arith)

same_member_symm : (s t : Seat) → same_member s t ≡ true → same_member t s ≡ true
same_member_symm s t h =
    let e = same→eq t.member s.member (ground arith) in ground (arith, e, same_refl s.member)

both_chairs_symm :
    (roles : List (ℕ × RoleDefaults)) (s t : Seat)
    → both_chairs roles s t ≡ true
    → both_chairs roles t s ≡ true
both_chairs_symm roles s t h = ground arith

-- The insertion of a seat that passes its checks leaves no person in two seats of the forum on
-- one day, and no two chair seats of it on one day, where that held before.
pub insert-Apart :
    (r : Register) (given : Seat) (today : ℕ) {after : Register}
    → insert r given today ≡ ok after
    → Apart same_member r.seats × Apart (both_chairs r.roles) r.seats
    → Apart same_member after.seats × Apart (both_chairs r.roles) after.seats
unfolding insert
insert-Apart r given today {after} h (members, chairs) =
    let (s, valid, done) =
      >>=-eq-ok (validate r true given)
        (λ s. ok (sync_officers (record r { seats = r.seats ++ s ∷ [] }) s.forum today).0) h in
    let (is_filled, alone, one) = validate-inv r true given valid in
    let seats : after.seats ≡ r.seats ++ s ∷ [] =
      sym (ap (λ (t : Register). t.seats) (ok-injective done))
      ∙ seats-sync_officers (record r { seats = r.seats ++ s ∷ [] }) s.forum today in
    rw seats (
      Apart-snoc same_member same_member_symm r.seats s members (
          no_overlap-clear r.seats s
            (subst (λ (u : Seat). validate_no_overlap r.seats u ≡ ok tt) is_filled alone)),
      Apart-snoc (both_chairs r.roles) (both_chairs_symm r.roles) r.seats s chairs (
          single_chair-clear r s
            (subst (λ (u : Seat). validate_single_chair r u ≡ ok tt) is_filled one)),
    )

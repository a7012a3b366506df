-- ===== src/Voting/Ballots/Opening.antt =====
-- The entitlement that `open_motion` writes, against the voters as at the decision date.
use enterprise_management.Base.{
  filter, Bool, map, length, arith, if◌then◌else◌, Bool, false, if-true, if-false, ◌==◌, ==_iff,
  filter, length, contains, map, suc, ◌&&◌, ◌||◌, ◌≤◌, ℕ, ◌+◌, ◌≡◌, refl, sym, ◌∙◌, ap, subst, inl,
  inr, ◌⊎◌, Option, none, true, not, List, [], ◌∷◌, ◌++◌, Memᴰ, ==_refl, any, any-mem, mem-any,
  is_some, or_else, ok, >>=-eq-ok, throw_if-eq-ok, ok-injective, Bool-cases, not-false,
  motion_closed, mem-append, mem-single, uncons,
}
use enterprise_management.Membership.{Seat, entitled_voters_as_at}
use enterprise_management.Voting.{
  not_cast, as_member, Vote, Motion, Chamber, validate_vote, insert_vote,
}
use enterprise_management.Voting.Ballots.{
  is_ballot, entitlement_row, open_seat, open_seats, opened, open_motion,
}
use enterprise_management.Voting.Ballots.Entitled.{choice_of, validate_vote-inv}

mem-left {ℓ} : {A : Type ℓ} {a : A} {xs : List A} (ys : List A) → Memᴰ a xs → Memᴰ a (xs ++ ys)
mem-left ys (Memᴰ.head e) = Memᴰ.head e
mem-left ys (Memᴰ.tail m) = Memᴰ.tail (mem-left ys m)

mem-right {ℓ} : {A : Type ℓ} {a : A} (xs ys : List A) → Memᴰ a ys → Memᴰ a (xs ++ ys)
mem-right [] ys m = m
mem-right (x ∷ xs) ys m = Memᴰ.tail (mem-right xs ys m)

-- A row of the motion for the seat stands in the table.
abbrev pub HasRow : List Vote → ℕ → Seat → Type 0
HasRow votes motion s = any (is_ballot motion s.name) votes ≡ true

-- The row is an uncast ballot of a seat of the list, in its member's name.
abbrev pub IsOpened : List Seat → ℕ → Vote → Type 0
IsOpened seats motion v =
    (s : Seat) × Memᴰ s seats
    × (v.motion ≡ motion)
    × (v.membership ≡ s.name)
    × (v.voter ≡ s.member)
    × (v.voted_as ≡ as_member)
    × (v.position ≡ not_cast)

-- What the loop leaves: rows kept, rows found for each seat, and no row but of the seats.
abbrev pub Opens : List Seat → ℕ → List Vote → List Vote → Type 0
Opens seats motion before after =
    ((v : Vote) → Memᴰ v before → Memᴰ v after)
    × ((s : Seat) → Memᴰ s seats → HasRow after motion s)
    × ((v : Vote) → Memᴰ v after → Memᴰ v before ⊎ IsOpened seats motion v)

insert_vote-inv :
    (c : Chamber) (v : Vote) (now : ℕ) {d : Chamber}
    → insert_vote c v now ≡ ok d
    → (w : Vote) × (choice_of w ≡ choice_of v)
      × (d ≡ record c { votes = c.votes ++ w ∷ []; next_name = c.next_name + 1 })
unfolding insert_vote
insert_vote-inv c v now h =
    let (w, valid, e) = >>=-eq-ok (validate_vote c none v now) _ h in
    (w, (validate_vote-inv c none v now valid).1, sym (ok-injective e))

further :
    (seats : List Seat) (motion : ℕ) (v : Vote) (s : Seat)
    → IsOpened seats motion v
    → IsOpened (s ∷ seats) motion v
further seats motion v s (t, m, on, of, by, role, open_yet) =
    (t, Memᴰ.tail m, on, of, by, role, open_yet)

inserted-IsOpened :
    (seats : List Seat) (motion name : ℕ) (s : Seat) (w : Vote)
    → choice_of w ≡ choice_of (entitlement_row name motion s)
    → IsOpened (s ∷ seats) motion w
inserted-IsOpened seats motion name s w kept = (
  s,
  Memᴰ.head refl,
  ap (λ x. x.1) kept,
  ap (λ x. x.2) kept,
  ap (λ x. x.5) kept,
  ap (λ x. x.4) kept,
  ap (λ x. x.3) kept,
)

inserted-HasRow :
    (votes : List Vote) (motion name : ℕ) (s : Seat) (w : Vote)
    → choice_of w ≡ choice_of (entitlement_row name motion s)
    → HasRow (votes ++ w ∷ []) motion s
inserted-HasRow votes motion name s w kept =
    let on : w.motion ≡ motion = ap (λ x. x.1) kept in
    let of : w.membership ≡ s.name = ap (λ x. x.2) kept in
    mem-any (is_ballot motion s.name) (mem-right votes (w ∷ []) (Memᴰ.head refl))
      (rw on (rw of (rw (==_refl motion) (==_refl s.name))))

HasRow-mono :
    (before after : List Vote) (motion : ℕ) (s : Seat)
    → ((v : Vote) → Memᴰ v before → Memᴰ v after)
    → HasRow before motion s
    → HasRow after motion s
HasRow-mono before after motion s grows h =
    let (v, m, e) = any-mem (is_ballot motion s.name) before h in
    mem-any (is_ballot motion s.name) (grows v m) e

-- The loop on the rest, after a seat that had a row or was given one.
Opens-cons :
    (seats : List Seat) (s : Seat) (motion : ℕ) (before mid after : List Vote)
    → ((v : Vote) → Memᴰ v before → Memᴰ v mid)
    → HasRow mid motion s
    → ((v : Vote) → Memᴰ v mid → Memᴰ v before ⊎ IsOpened (s ∷ seats) motion v)
    → Opens seats motion mid after
    → Opens (s ∷ seats) motion before after
Opens-cons seats s motion before mid after grows has only (kept, rows, new) = (
  λ v m. kept v (grows v m),
  λ t m. elim (uncons m) [
    | inl e ↦ subst (HasRow after motion) (sym e) (HasRow-mono mid after motion s kept has)
    | inr n ↦ rows t n
  ],
  λ v m. elim (new v m) [ inl n ↦ only v n | inr o ↦ inr (further seats motion v s o) ],
)

open_seat-Opens :
    (seats : List Seat) (s : Seat) (motion now : ℕ) (c : Chamber) {d : Chamber} {new : List ℕ}
    → open_seat s motion now c ≡ ok (d, new)
    → ((v : Vote) → Memᴰ v c.votes → Memᴰ v d.votes)
      × HasRow d.votes motion s
      × ((v : Vote) → Memᴰ v d.votes → Memᴰ v c.votes ⊎ IsOpened (s ∷ seats) motion v)
unfolding open_seat
open_seat-Opens seats s motion now c {d} {new} h =
    elim (Bool-cases (any (is_ballot motion s.name) c.votes)) [
      | inl e ↦
          let same = ap (λ x. x.0) (ok-injective (rw e at h)) in
          rw (← same) ((λ v m. m, e, λ v m. inl m))
      | inr e ↦
          let (f, added, h1) =
            >>=-eq-ok (insert_vote c (entitlement_row c.next_name motion s) now) _ (rw e at h) in
          let (w, kept, after) =
            insert_vote-inv c (entitlement_row c.next_name motion s) now added in
          let votes : d.votes ≡ c.votes ++ w ∷ [] =
            ap (λ x. x.0.votes) (ok-injective (sym h1)) ∙ ap (λ (x : Chamber). x.votes) after in
          rw votes (
            (
              λ v m. mem-left (w ∷ []) m,
              inserted-HasRow c.votes motion c.next_name s w kept,
              λ v m. elim (mem-append c.votes (w ∷ []) m) [
                | inl old ↦ inl old
                | inr made ↦
                    inr (rw (mem-single made) (inserted-IsOpened seats motion c.next_name s w kept))
              ],
            ))
    ]

opened-votes : (c : Chamber) (m : Motion) (now : ℕ) → (opened c m now).votes ≡ c.votes
opened-votes c m now = elim (Bool-cases (is_some m.opened_on)) [
  | inl e ↦ rw e refl
  | inr e ↦ rw e refl
]

open_seats-Opens :
    (seats : List Seat) (motion now : ℕ) (c : Chamber) {d : Chamber} {created : List ℕ}
    → open_seats seats motion now c ≡ ok (d, created)
    → Opens seats motion c.votes d.votes
unfolding open_seats
open_seats-Opens [] motion now c {d} h =
    let same = ap (λ x. x.0) (ok-injective h) in
    rw (← same) ((λ v m. m, λ s m. elim m [ ], λ v m. inl m))
open_seats-Opens (s ∷ seats) motion now c {d} {created} h =
    let ((mid, new), first, h1) = >>=-eq-ok (open_seat s motion now c) _ h in
    let ((e, more), rest, h2) = >>=-eq-ok (open_seats seats motion now mid) _ h1 in
    let (grows, has, only) = open_seat-Opens seats s motion now c first in
    subst (λ (x : Chamber). Opens (s ∷ seats) motion c.votes x.votes)
      (ap (λ x. x.0) (ok-injective h2))
      (Opens-cons seats s motion c.votes mid.votes e.votes grows has only
        (open_seats-Opens seats motion now mid rest))

-- The number of ballots of a motion for a seat.
abbrev pub ballots_for : List Vote → ℕ → ℕ → ℕ
ballots_for votes motion seat = length (filter (is_ballot motion seat) votes)

abbrev topped_up : ℕ → Bool → ℕ
topped_up count wanted = if count == 0 && wanted then 1 else count

-- Each of the seats has one ballot where it had none, and every other number stays.
abbrev pub TopsUp : List ℕ → ℕ → List Vote → List Vote → Type 0
TopsUp seats motion before after =
    (n : ℕ)
    → ballots_for after motion n ≡ (
        if ballots_for before motion n == 0 && contains seats n
        then 1
        else ballots_for before motion n)

length-filter-last :
    (p : Vote → Bool) (votes : List Vote) (w : Vote)
    → length (filter p (votes ++ w ∷ []))
      ≡ (if p w then suc (length (filter p votes)) else length (filter p votes))
length-filter-last p [] w = ground arith
length-filter-last p (v ∷ votes) w = ground (arith, length-filter-last p votes w)

any-length :
    (p : Vote → Bool) (votes : List Vote) → (length (filter p votes) == 0) ≡ not (any p votes)
any-length p [] = refl
any-length p (v ∷ votes) = ground (arith, any-length p votes)

-- The loop's body at a seat that is, or is not, the one counted.
topped_step :
    (count more : ℕ) (seen here later : Bool)
    → (here ≡ true → (count == 0) ≡ not seen)
    → more ≡ (if seen then count else (if here then suc count else count))
    → topped_up more later ≡ topped_up count (here || later)
topped_step count more true true later zero grown = ground (arith, zero refl)
topped_step count more true false later zero grown = ground arith
topped_step count more false true later zero grown = ground (arith, zero refl)
topped_step count more false false later zero grown = ground arith

open_seat-counts :
    (s : Seat) (motion now : ℕ) (c : Chamber) (n : ℕ) {d : Chamber} {new : List ℕ}
    → open_seat s motion now c ≡ ok (d, new)
    → ballots_for d.votes motion n ≡ (
        if any (is_ballot motion s.name) c.votes
        then ballots_for c.votes motion n
        else (if s.name == n
            then suc (ballots_for c.votes motion n)
            else ballots_for c.votes motion n))
unfolding open_seat
open_seat-counts s motion now c n {d} {new} h =
    elim (Bool-cases (any (is_ballot motion s.name) c.votes)) [
      | inl e ↦
          let same = ap (λ x. x.0) (ok-injective (sym (if-true _ _ e) ∙ h)) in
          ap (λ (x : Chamber). ballots_for x.votes motion n) (sym same) ∙ sym (if-true _ _ e)
      | inr e ↦
          let (f, added, h1) =
            >>=-eq-ok (insert_vote c (entitlement_row c.next_name motion s) now) _
              (sym (if-false _ _ e) ∙ h) in
          let (w, kept, after) =
            insert_vote-inv c (entitlement_row c.next_name motion s) now added in
          let votes : d.votes ≡ c.votes ++ w ∷ [] =
            ap (λ x. x.0.votes) (ok-injective (sym h1)) ∙ ap (λ (x : Chamber). x.votes) after in
          let on : w.motion ≡ motion = ap (λ x. x.1) kept in
          let of : w.membership ≡ s.name = ap (λ x. x.2) kept in
          let is_it : is_ballot motion n w ≡ (s.name == n) =
            rw on (rw of (rw (==_refl motion) refl)) in
          ap (λ (x : List Vote). ballots_for x motion n) votes
          ∙ length-filter-last (is_ballot motion n) c.votes w
          ∙ ap
              (λ (b : Bool).
                if b then suc (ballots_for c.votes motion n) else ballots_for c.votes motion n)
              is_it
          ∙ sym (if-false _ _ e)
    ]

open_seats-TopsUp :
    (seats : List Seat) (motion now : ℕ) (c : Chamber) {d : Chamber} {created : List ℕ}
    → open_seats seats motion now c ≡ ok (d, created)
    → TopsUp (map (λ (s : Seat). s.name) seats) motion c.votes d.votes
unfolding open_seats
open_seats-TopsUp [] motion now c {d} h n =
    let same = ap (λ (x : Chamber × List ℕ). ballots_for x.0.votes motion n) (ok-injective h) in
    ground arith
open_seats-TopsUp (s ∷ seats) motion now c {d} {created} h n =
    let ((mid, new), first, h1) = >>=-eq-ok (open_seat s motion now c) _ h in
    let ((e, more), rest, h2) = >>=-eq-ok (open_seats seats motion now mid) _ h1 in
    let stored = ap (λ (x : Chamber × List ℕ). ballots_for x.0.votes motion n) (ok-injective h2) in
    sym stored
    ∙ open_seats-TopsUp seats motion now mid rest n
    ∙ topped_step (ballots_for c.votes motion n) (ballots_for mid.votes motion n)
        (any (is_ballot motion s.name) c.votes) (s.name == n)
        (contains (map (λ (t : Seat). t.name) seats) n)
        (λ here.
          subst
            (λ (k : ℕ).
              (ballots_for c.votes motion k == 0) ≡ not (any (is_ballot motion s.name) c.votes))
            ((==_iff s.name n).0 here) (any-length (is_ballot motion s.name) c.votes))
        (open_seat-counts s motion now c n first)

-- Opening an editable motion adds exactly one ballot for each seat that is entitled to vote in its
-- forum as at the decision date (or the date given) and has none: for a seat that has ballots or is
-- not entitled, the number of its ballots stays. Each ballot that is added is of an entitled seat,
-- not cast, in the name of the seat's member. The ballots there are stay, also of seats that are no
-- longer entitled.
pub open_motion-Opens :
    (c : Chamber) (m : Motion) (on_date : Option ℕ) (now : ℕ) {d : Chamber} {created : List ℕ}
    → open_motion c m on_date now ≡ ok (d, created)
    → (m.editable ≡ true)
      × Opens
          (entitled_voters_as_at c.register.seats m.forum (or_else on_date m.decision_date))
          m.name
          c.votes
          d.votes
      × TopsUp
          (map
            (λ (s : Seat). s.name)
            (entitled_voters_as_at c.register.seats m.forum (or_else on_date m.decision_date)))
          m.name
          c.votes
          d.votes
unfolding open_motion
open_motion-Opens c m on_date now {d} {created} h =
    let seats = entitled_voters_as_at c.register.seats m.forum (or_else on_date m.decision_date) in
    let (editable, h1) = throw_if-eq-ok (not m.editable) motion_closed _ h in
    let ((e, made), opens, h2) = >>=-eq-ok (open_seats seats m.name now c) _ h1 in
    let stored : e.votes ≡ d.votes =
      sym (opened-votes e m now) ∙ ap (λ (x : Chamber × List ℕ). x.0.votes) (ok-injective h2) in
    (
      not-false m.editable editable,
      subst (Opens seats m.name c.votes) stored (open_seats-Opens seats m.name now c opens),
      subst (TopsUp (map (λ (s : Seat). s.name) seats) m.name c.votes) stored
          (open_seats-TopsUp seats m.name now c opens),
    )

-- What opening leaves alone: the motions but for the time of the opening, and the configuration.
abbrev pub Frame : Chamber → Chamber → Type 0
Frame c d = (d.motions ≡ c.motions) × (d.flag_rows ≡ c.flag_rows) × (c.next_name ≤ d.next_name)

open_seat-Frame :
    (s : Seat) (motion now : ℕ) (c : Chamber) {d : Chamber} {new : List ℕ}
    → open_seat s motion now c ≡ ok (d, new)
    → Frame c d
unfolding open_seat
open_seat-Frame s motion now c {d} {new} h =
    elim (Bool-cases (any (is_ballot motion s.name) c.votes)) [
      | inl e ↦
          let same = ap (λ x. x.0) (ok-injective (rw e at h)) in
          subst (Frame c) same (refl, refl, omega arith)
      | inr e ↦
          let (f, added, h1) =
            >>=-eq-ok (insert_vote c (entitlement_row c.next_name motion s) now) _ (rw e at h) in
          let (w, kept, after) =
            insert_vote-inv c (entitlement_row c.next_name motion s) now added in
          subst (Frame c) (sym after ∙ ap (λ x. x.0) (ok-injective h1)) (refl, refl, omega arith)
    ]

open_seats-Frame :
    (seats : List Seat) (motion now : ℕ) (c : Chamber) {d : Chamber} {created : List ℕ}
    → open_seats seats motion now c ≡ ok (d, created)
    → Frame c d
unfolding open_seats
open_seats-Frame [] motion now c h =
    subst (Frame c) (ap (λ x. x.0) (ok-injective h)) (refl, refl, omega arith)
open_seats-Frame (s ∷ seats) motion now c h =
    let ((mid, new), first, h1) = >>=-eq-ok (open_seat s motion now c) _ h in
    let ((e, more), rest, h2) = >>=-eq-ok (open_seats seats motion now mid) _ h1 in
    let (a, b, up) = open_seat-Frame s motion now c first in
    let (a', b', up') = open_seats-Frame seats motion now mid rest in
    subst (Frame c) (ap (λ x. x.0) (ok-injective h2)) (a' ∙ a, b' ∙ b, omega arith)

-- The chamber before the time is stored.
pub open_motion-Frame :
    (c : Chamber) (m : Motion) (on_date : Option ℕ) (now : ℕ) {d : Chamber} {created : List ℕ}
    → open_motion c m on_date now ≡ ok (d, created)
    → (e : Chamber) × Frame c e × (d ≡ opened e m now)
unfolding open_motion
open_motion-Frame c m on_date now h =
    let seats = entitled_voters_as_at c.register.seats m.forum (or_else on_date m.decision_date) in
    let (editable, h1) = throw_if-eq-ok (not m.editable) motion_closed _ h in
    let ((e, made), opens, h2) = >>=-eq-ok (open_seats seats m.name now c) _ h1 in
    (e, open_seats-Frame seats m.name now c opens, sym (ap (λ x. x.0) (ok-injective h2)))

-- ===== src/Voting/Screen/Own.antt =====
-- What a ballot cast from the screen has passed: it is the caller's own.
use enterprise_management.Base.{
  &&_parts, mem-single, mem-if, mem-append, not-false, get-put, ◌⊎◌, arith, ℕ, ◌≡◌, refl, sym, ◌∙◌,
  ap, subst, Option, none, some, true, false, not, ◌&&◌, List, [], ◌∷◌, Memᴰ, holds_name, get, put,
  read, demand, demand-eq-ok, ok, refused, >>=-eq-ok, throw_if-eq-ok, ok-injective, unknown_ballot,
  other, voting_entitlement, inl, inr,
}
use enterprise_management.Membership.{Seat, delegate_active_on}
use enterprise_management.Voting.{Position, Vote, Motion, Chamber, refusal, need}
use enterprise_management.Voting.Ballots.{cast_vote, entitlement}
use enterprise_management.Voting.Screen.{
  MySeat, my_seats, my_rows, seat_rows, by_membership, castable, cast_my_vote,
}

by_membership-mem :
    (key : ℕ) (rows : List MySeat) (d : List (ℕ × MySeat)) {x : MySeat}
    → get key (by_membership rows d) ≡ some x
    → (Memᴰ x rows × (x.membership ≡ key)) ⊎ (get key d ≡ some x)
by_membership-mem key [] d h = inr h
by_membership-mem key (r ∷ rows) d h = elim (by_membership-mem key rows (put r.membership r d) h) [
  | inl (m, e) ↦ inl (Memᴰ.tail m, e)
  | inr e ↦ elim (get-put key r.membership r d e) [
    | inl (k, same) ↦ inl (Memᴰ.head same, ap (λ (y : MySeat). y.membership) same ∙ sym k)
    | inr f ↦ inr f
  ]
]

-- The seat of the ballot is the user's own, or the user is its voting delegate on the decision date.
abbrev pub IsOwn : Chamber → Motion → ℕ → MySeat → Type 0
IsOwn c m user r =
    (s : Seat) × (read (λ (t : Seat). t.name) r.membership c.register.seats ≡ some s)
    × (((r.as_delegate ≡ false) × (s.member ≡ some user))
        ⊎ ((r.as_delegate ≡ true)
            × (s.delegate ≡ some user)
            × (s.delegate_votes ≡ true)
            × (delegate_active_on s m.decision_date ≡ true)))

holds_name-eq : (o : Option ℕ) (n : ℕ) → holds_name o n ≡ true → o ≡ some n
holds_name-eq o n h = ground arith

module _ (c : Chamber) (m : Motion) (user : ℕ) where
  seat_rows-IsOwn :
      (o : Option Seat) (membership : ℕ) {r : MySeat}
      → read (λ (t : Seat). t.name) membership c.register.seats ≡ o
      → Memᴰ r (seat_rows o membership m user)
      → IsOwn c m user r
  unfolding seat_rows
  seat_rows-IsOwn none membership found h = elim h [ ]
  seat_rows-IsOwn (some s) membership found h = elim (mem-if (holds_name s.member user) _ _ h) [
    | inl (e, own) ↦ rw (mem-single own) ((s, found, inl (refl, holds_name-eq s.member user e)))
    | inr (e, rest) ↦
        elim (mem-if
          (holds_name s.delegate user && (s.delegate_votes && delegate_active_on s m.decision_date))
          _ _ rest) [
            | inl (f, stand) ↦
                let (named, more) = &&_parts (holds_name s.delegate user) _ f in
                let (votes, active) =
                  &&_parts s.delegate_votes (delegate_active_on s m.decision_date) more in
                rw (mem-single stand)
                  ((s, found, inr (refl, holds_name-eq s.delegate user named, votes, active)))
            | inr (f, none_left) ↦ elim none_left [ ]
          ]
  ]

  my_rows-IsOwn :
      (votes : List Vote) {r : MySeat} → Memᴰ r (my_rows c votes m user) → IsOwn c m user r
  unfolding my_rows
  my_rows-IsOwn [] h = elim h [ ]
  my_rows-IsOwn (v ∷ votes) h =
      elim (mem-append
        (seat_rows (read (λ (s : Seat). s.name) v.membership c.register.seats) v.membership m user)
        (my_rows c votes m user) h) [
          | inl first ↦
              seat_rows-IsOwn (read (λ (s : Seat). s.name) v.membership c.register.seats)
                v.membership refl first
          | inr later ↦ my_rows-IsOwn votes later
        ]

-- A ballot is cast from the screen only on a stored motion, with a position that can be cast, and
-- for a seat whose member is the caller, or whose voting delegate the caller is on the decision
-- date; it is then cast as `cast_vote` casts it, with the caller as its voter.
pub cast_my_vote-IsOwn :
    (c : Chamber) (motion membership : ℕ) (position : Position) (rationale : Option ℕ)
    (user now : ℕ) {d : Chamber}
    → cast_my_vote c motion membership position rationale user now ≡ ok d
    → (m : Motion) × (read (λ (n : Motion). n.name) motion c.motions ≡ some m)
      × (castable position ≡ true)
      × ((r : MySeat) × (r.membership ≡ membership)
          × IsOwn c m user r
          × ((w : Vote) × (cast_vote c m membership position (some user) rationale r.as_delegate now
                ≡ ok (d, w))))
unfolding cast_my_vote my_seats
cast_my_vote-IsOwn c motion membership position rationale user now {d} h =
    let (m, e, h1) = >>=-eq-ok (need (read (λ (n : Motion). n.name) motion c.motions)) _ h in
    let (r, mine, h2) =
      >>=-eq-ok
        (demand (get membership (by_membership (my_seats c m user) []))
          (refused (refusal motion other voting_entitlement)))
        _ h1 in
    let (good, h3) = throw_if-eq-ok (not (castable position)) unknown_ballot _ h2 in
    let ((after, w), cast, done) =
      >>=-eq-ok (cast_vote c m membership position (some user) rationale r.as_delegate now) _ h3 in
    elim (by_membership-mem membership (my_seats c m user) [] (demand-eq-ok _ _ mine)) [
      | inl (row, named) ↦ (
        m,
        demand-eq-ok _ _ e,
        not-false (castable position) good,
        (
          r,
          named,
          my_rows-IsOwn c m user (entitlement c m.name) row,
          (
            w,
            subst
                (λ x.
                  cast_vote c m membership position (some user) rationale r.as_delegate now
                  ≡ ok (x, w))
                (ok-injective done) cast,
          ),
        ),
      )
      | inr nothing ↦ absurd (cc)
    ]

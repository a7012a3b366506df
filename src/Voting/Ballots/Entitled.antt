-- ===== src/Voting/Ballots/Entitled.antt =====
-- What a saved ballot has passed: the checks of ForumVote.validate, and those of `cast_vote`.
use enterprise_management.Base.{
  Option-cases, ◌⊎◌, not-false, some-injective, &&_parts, ==_iff, find-mem, demand-eq-ok, demand,
  inr, inl, ℕ, ◌≡◌, refl, sym, ◌∙◌, ap, subst, Option, none, some, Bool, true, false, not, ◌&&◌,
  if◌then◌else◌, ◌==◌, same, is_some, same→eq, find, read, write, arith, ok, ok-injective, thrown,
  refused, >>=-eq-ok, >>-eq-ok, refuse_if-eq-ok, throw_if-eq-ok, Bool-cases, wrong_forum,
  not_entitled, delegate_may_not_vote, delegation_not_in_force, wrong_delegate, wrong_voter, other,
  motion_outcome_recorded, entitlement_as_at_decision_date, seat_missing, motion_missing,
}
use enterprise_management.Membership.{Seat, seat_held_on, delegate_active_on}
use enterprise_management.Voting.{
  stamped, Position, not_cast, position_eq, VotedAs, as_member, as_delegate, Vote, Motion, Chamber,
  refusal, need, validate_seat, validate_voter, validate_frozen, validate_vote, save_vote,
}
use enterprise_management.Voting.Ballots.{is_ballot, mark, cast_vote}

-- Who may cast the ballot of a seat on a day: its delegate in force, or its member. A seat without
-- a member takes the ballot of any voter.
abbrev pub MayCast : Seat → ℕ → Vote → VotedAs → Type 0
MayCast s day v as_delegate =
    (s.delegate_votes ≡ true)
    × (delegate_active_on s day ≡ true)
    × (v.voter ≡ s.delegate)
    × (v.acting_for ≡ s.member)
MayCast s day v as_member = (v.voter ≡ s.member) ⊎ (s.member ≡ none)

-- The ballot belongs to a stored motion and to a voting seat of its forum that was held on the
-- decision date, and its voter may cast it.
pub record Entitled (c : Chamber) (v : Vote) : Type 0 where
  pub on_motion : Motion
  pub motion_read : read (λ (m : Motion). m.name) v.motion c.motions ≡ some on_motion
  pub seat : Seat
  pub seat_read : read (λ (s : Seat). s.name) v.membership c.register.seats ≡ some seat
  pub on_forum : (seat.forum == on_motion.forum) ≡ true
  pub carries_vote : seat.votes ≡ true
  pub held : seat_held_on c.register.seats v.membership on_motion.decision_date ≡ true
  pub may_cast : MayCast seat on_motion.decision_date v v.voted_as

-- What a save keeps of a ballot.
abbrev pub choice_of : Vote → ℕ × ℕ × ℕ × Position × VotedAs × Option ℕ
choice_of v = (v.name, v.motion, v.membership, v.position, v.voted_as, v.voter)

-- What the mark sets.
abbrev pub marked_of :
    Bool → Vote → Position → Option ℕ → Option ℕ → ℕ × ℕ × ℕ × Position × VotedAs × Option ℕ
marked_of true v position voter delegate = (
  v.name,
  v.motion,
  v.membership,
  position,
  as_delegate,
  if is_some voter then voter else delegate,
)
marked_of false v position voter delegate =
    (v.name, v.motion, v.membership, position, v.voted_as, if is_some voter then voter else v.voter)

validate_seat-inv :
    (c : Chamber) (m : Motion) (v : Vote) {s : Seat}
    → validate_seat c m v ≡ ok s
    → (read (λ (t : Seat). t.name) v.membership c.register.seats ≡ some s)
      × ((s.forum == m.forum) ≡ true)
      × (s.votes ≡ true)
unfolding validate_seat
validate_seat-inv c m v h =
    let (t, e, h0) =
      >>=-eq-ok
        (demand (read (λ (t : Seat). t.name) v.membership c.register.seats) (thrown seat_missing)) _
        h in
    let (a, h1) = throw_if-eq-ok (not (t.forum == m.forum)) wrong_forum _ h0 in
    let (b, h2) = throw_if-eq-ok (not t.votes) not_entitled _ h1 in
    let found = demand-eq-ok (read (λ (t : Seat). t.name) v.membership c.register.seats) _ e in
    subst
      (λ (s : Seat).
        (read (λ (t : Seat). t.name) v.membership c.register.seats ≡ some s)
        × ((s.forum == m.forum) ≡ true)
        × (s.votes ≡ true))
      (ok-injective h2) (found, not-false _ a, not-false _ b)

-- The voter of a seat that has a member.
matched :
    (s : Seat) (v : Vote) {member : ℕ}
    → s.member ≡ some member
    → (is_some s.member && not (same v.voter s.member)) ≡ false
    → same v.voter s.member ≡ true
matched s v held h =
    let there : is_some s.member ≡ true = ap (λ (o : Option ℕ). is_some o) held in ground arith

validate_voter-MayCast :
    (s : Seat) (m : Motion) (v : Vote) (role : VotedAs) {w : Vote}
    → v.voted_as ≡ role
    → validate_voter role s m v ≡ ok w
    → MayCast s m.decision_date w w.voted_as × (choice_of w ≡ choice_of v)
unfolding validate_voter
validate_voter-MayCast s m v as_delegate {w} cast h =
    let (a, h1) = throw_if-eq-ok (not s.delegate_votes) delegate_may_not_vote _ h in
    let (b, h2) =
      throw_if-eq-ok (not (delegate_active_on s m.decision_date)) delegation_not_in_force _ h1 in
    let (d, h3) = throw_if-eq-ok (not (same v.voter s.delegate)) wrong_delegate _ h2 in
    rw (← ok-injective h3) (
      rw cast (
        (
          not-false s.delegate_votes a,
          not-false (delegate_active_on s m.decision_date) b,
          same→eq v.voter s.delegate (not-false _ d),
          refl,
        ),
        refl,
      ))
validate_voter-MayCast s m v as_member {w} cast h =
    let (a, h1) =
      throw_if-eq-ok (is_some s.member && not (same v.voter s.member)) wrong_voter _ h in
    rw (← ok-injective h1) (
      rw cast (
        elim (Option-cases s.member) [
          | inl vacant ↦ inr vacant
          | inr (member, held) ↦ inl (same→eq v.voter s.member (matched s v held a))
        ],
        refl,
      ))

timed-MayCast :
    (s : Seat) (day : ℕ) (v : Vote) (t : Option ℕ) (role : VotedAs)
    → MayCast s day v role
    → MayCast s day (record v { cast_on = t }) role
timed-MayCast s day v t as_member h = h
timed-MayCast s day v t as_delegate h = h

stamped-choice : (v : Vote) (now : ℕ) → choice_of (stamped v now) ≡ choice_of v
stamped-choice v now =
    elim (Bool-cases (not (position_eq v.position not_cast) && not (is_some v.cast_on))) [
      | inl e ↦ rw e refl
      | inr e ↦ rw e refl
    ]

stamped-Entitled : (c : Chamber) (v : Vote) (now : ℕ) → Entitled c v → Entitled c (stamped v now)
stamped-Entitled c v now h =
    elim (Bool-cases (not (position_eq v.position not_cast) && not (is_some v.cast_on))) [
      | inl e ↦ rw e (record {
        on_motion = h.on_motion;
        motion_read = h.motion_read;
        seat = h.seat;
        seat_read = h.seat_read;
        on_forum = h.on_forum;
        carries_vote = h.carries_vote;
        held = h.held;
        may_cast =
            timed-MayCast h.seat h.on_motion.decision_date v (some now) v.voted_as h.may_cast;
      })
      | inr e ↦ rw e h
    ]

pub validate_vote-inv :
    (c : Chamber) (before : Option Vote) (v : Vote) (now : ℕ) {w : Vote}
    → validate_vote c before v now ≡ ok w
    → Entitled c w × (choice_of w ≡ choice_of v)
unfolding validate_vote
validate_vote-inv c before v now {w} h =
    let (m, found_motion, h0) =
      >>=-eq-ok (demand (read (λ (m : Motion). m.name) v.motion c.motions) (thrown motion_missing))
        _ h in
    let e = demand-eq-ok (read (λ (m : Motion). m.name) v.motion c.motions) _ found_motion in
    let (s, seated, h1) = >>=-eq-ok (validate_seat c m v) _ h0 in
    let (held, h2) =
      refuse_if-eq-ok (not (seat_held_on c.register.seats v.membership m.decision_date))
        (refusal v.motion other entitlement_as_at_decision_date) _ h1 in
    let (u, voter, h3) = >>=-eq-ok (validate_voter v.voted_as s m v) _ h2 in
    let (frozen, h4) = >>-eq-ok (validate_frozen before m u) _ h3 in
    let (found, on_forum, votes) = validate_seat-inv c m v seated in
    let (may, kept) = validate_voter-MayCast s m v v.voted_as refl voter in
    let whole : Entitled c u = record {
      on_motion = m;
      motion_read =
          subst (λ n. read (λ (k : Motion). k.name) n c.motions ≡ some m) (sym (ap (λ x. x.1) kept))
            e;
      seat = s;
      seat_read =
          subst (λ n. read (λ (k : Seat). k.name) n c.register.seats ≡ some s)
            (sym (ap (λ x. x.2) kept)) found;
      on_forum = on_forum;
      carries_vote = votes;
      held =
          subst (λ n. seat_held_on c.register.seats n m.decision_date ≡ true)
            (sym (ap (λ x. x.2) kept)) (not-false _ held);
      may_cast = may;
    } in
    subst (λ x. Entitled c x × (choice_of x ≡ choice_of v)) (ok-injective h4)
      (stamped-Entitled c u now whole, stamped-choice u now ∙ kept)

pub save_vote-inv :
    (c : Chamber) (v : Vote) (now : ℕ) {d : Chamber} {w : Vote}
    → save_vote c v now ≡ ok (d, w)
    → Entitled c w
      × (choice_of w ≡ choice_of v)
      × (d ≡ record c { votes = write (λ (u : Vote). u.name) w c.votes })
unfolding save_vote
save_vote-inv c v now {d} {w} h =
    let (x, valid, e) =
      >>=-eq-ok (validate_vote c (read (λ (u : Vote). u.name) v.name c.votes) v now) _ h in
    let (may, kept) = validate_vote-inv c _ v now valid in
    let stored = ap (λ p. p.1) (ok-injective e) in
    (
      subst (Entitled c) stored may,
      subst (λ y. choice_of y ≡ choice_of v) stored kept,
      sym (ap (λ p. p.0) (ok-injective e))
          ∙ ap (λ y. record c { votes = write (λ (u : Vote). u.name) y c.votes }) stored,
    )

mark-choice :
    (delegate : Bool) (c : Chamber) (v : Vote) (membership : ℕ) (position : Position)
    (voter rationale : Option ℕ) {w : Vote}
    → mark delegate c v membership position voter rationale ≡ ok w
    → (standing : Option ℕ) × (choice_of w ≡ marked_of delegate v position voter standing)
unfolding mark
mark-choice true c v membership position voter rationale h =
    let (s, seated, e) =
      >>=-eq-ok (need (read (λ (s : Seat). s.name) membership c.register.seats)) _ h in
    (s.delegate, ap choice_of (sym (ok-injective e)))
mark-choice false c v membership position voter rationale h =
    (none, ap choice_of (sym (ok-injective h)))

module _ (c : Chamber) (m : Motion) (membership : ℕ) (position : Position)
    (voter rationale : Option ℕ) (delegate : Bool) (now : ℕ) where
  -- A ballot is cast only on an editable motion and only into an entitlement row of the table, which
  -- it keeps the name of. The saved ballot carries the given position, and belongs to a seat of the
  -- motion's forum that votes and was held on the decision date. A ballot cast as the delegate is the
  -- delegate's in force on that date, of a seat that allows it; one cast as the member is the
  -- member's, but that a seat without a member takes any voter.
  pub cast_vote-Entitled :
      {d : Chamber} {w : Vote}
      → cast_vote c m membership position voter rationale delegate now ≡ ok (d, w)
      → (m.editable ≡ true)
        × ((v : Vote) × (find (is_ballot m.name membership) c.votes ≡ some v)
            × (standing : Option ℕ) × (choice_of w ≡ marked_of delegate v position voter standing))
        × Entitled c w
        × (d ≡ record c { votes = write (λ (u : Vote). u.name) w c.votes })
  unfolding cast_vote
  cast_vote-Entitled h =
      let (e, h1) =
        refuse_if-eq-ok (not m.editable) (refusal m.name other motion_outcome_recorded) _ h in
      let (v, row, h2) =
        >>=-eq-ok
          (demand (find (is_ballot m.name membership) c.votes)
            (refused (refusal m.name other entitlement_as_at_decision_date)))
          _ h1 in
      let (x, marked, h3) =
        >>=-eq-ok (mark delegate c v membership position voter rationale) _ h2 in
      let (may, kept, after) = save_vote-inv c x now h3 in
      let (standing, set_as) =
        mark-choice delegate c v membership position voter rationale marked in
      (not-false _ e, (v, demand-eq-ok _ _ row, standing, kept ∙ set_as), may, after)

-- The mark moves no ballot to another motion or seat.
marked-row :
    (delegate : Bool) (v : Vote) (position : Position) (voter standing : Option ℕ)
    → ((marked_of delegate v position voter standing).1 ≡ v.motion)
      × ((marked_of delegate v position voter standing).2 ≡ v.membership)
marked-row true v position voter standing = (refl, refl)
marked-row false v position voter standing = (refl, refl)

marked-role :
    (delegate : Bool) (v : Vote) (position : Position) (voter standing : Option ℕ)
    → v.voted_as ≡ as_delegate
    → (marked_of delegate v position voter standing).4 ≡ as_delegate
marked-role true v position voter standing role = refl
marked-role false v position voter standing role = role

-- Who is named is the voter.
marked-voter :
    (delegate : Bool) (v : Vote) (position : Position) (voter standing : Option ℕ)
    → (voter ≡ none) ⊎ ((marked_of delegate v position voter standing).5 ≡ voter)
marked-voter delegate v position none standing = inl refl
marked-voter true v position (some user) standing = inr refl
marked-voter false v position (some user) standing = inr refl

-- Where the entitlement row of the seat is marked as the delegate's, whatever vote for the seat is
-- saved is again marked as the delegate's, and its voter is the seat's delegate, in force on the
-- decision date of the stored motion. So a vote that names a voter names the delegate: a vote that
-- names any other user, the seat's member included, is not saved, as the delegate or not. A vote
-- that names nobody stays the delegate's.
pub cast_vote-keeps_delegate :
    (c : Chamber) (m : Motion) (membership : ℕ) (position : Position) (voter rationale : Option ℕ)
    (delegate : Bool) (now : ℕ) (v : Vote) (s : Seat) {d : Chamber} {w : Vote}
    → find (is_ballot m.name membership) c.votes ≡ some v
    → v.voted_as ≡ as_delegate
    → read (λ (t : Seat). t.name) membership c.register.seats ≡ some s
    → cast_vote c m membership position voter rationale delegate now ≡ ok (d, w)
    → (w.voted_as ≡ as_delegate)
      × (w.voter ≡ s.delegate)
      × ((on_motion : Motion) × (read (λ (x : Motion). x.name) m.name c.motions ≡ some on_motion)
          × (delegate_active_on s on_motion.decision_date ≡ true))
      × ((voter ≡ none) ⊎ (voter ≡ s.delegate))
cast_vote-keeps_delegate c m membership position voter rationale delegate now v s {w = w} row role
      found h =
    let (e, (u, again, standing, kept), may, after) =
      cast_vote-Entitled c m membership position voter rationale delegate now h in
    let same_row : v ≡ u = cc (again, row) in
    let (stored, is_own) = find-mem (is_ballot m.name membership) c.votes again in
    let (on, of) = &&_parts (u.motion == m.name) (u.membership == membership) is_own in
    let named : w.membership ≡ membership =
      ap (λ x. x.2) kept
      ∙ (marked-row delegate u position voter standing).1
      ∙ (==_iff u.membership membership).0 of in
    let moved : w.motion ≡ m.name =
      ap (λ x. x.1) kept
      ∙ (marked-row delegate u position voter standing).0
      ∙ (==_iff u.motion m.name).0 on in
    let delegates : w.voted_as ≡ as_delegate =
      ap (λ x. x.4) kept
      ∙ marked-role delegate u position voter standing
          (ap (λ (x : Vote). x.voted_as) (sym same_row) ∙ role) in
    let same_seat : may.seat ≡ s = some-injective (
      sym (
        subst (λ n. read (λ (t : Seat). t.name) n c.register.seats ≡ some may.seat) named
          may.seat_read)
      ∙ found) in
    let (allowed, active, is_delegate, acting) =
      subst (MayCast may.seat may.on_motion.decision_date w) delegates may.may_cast in
    let own : w.voter ≡ s.delegate = is_delegate ∙ ap (λ (t : Seat). t.delegate) same_seat in
    (
      delegates,
      own,
      (
        may.on_motion,
        subst (λ n. read (λ (x : Motion). x.name) n c.motions ≡ some may.on_motion) moved
            may.motion_read,
        subst (λ (t : Seat). delegate_active_on t may.on_motion.decision_date ≡ true) same_seat
            active,
      ),
      elim (marked-voter delegate u position voter standing) [
        | inl nobody ↦ inl nobody
        | inr by ↦ inr (sym by ∙ sym (ap (λ x. x.5) kept) ∙ own)
      ],
    )

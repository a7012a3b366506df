-- ===== src/Voting/Screen/Secretary.antt =====
-- The recording of an outcome from the screen: who may, and what is stored.
use enterprise_management.Base.{
  read-write_self, read-name, ℕ, ◌≡◌, sym, ◌∙◌, ap, subst, some, Bool, true, false, not, ◌&&◌, List,
  [], ◌∷◌, contains, read, ok, >>=-eq-ok, refuse_if-eq-ok, throw_if-eq-ok, demand-eq-ok,
  ok-injective, unknown_outcome, outcome_already_recorded, other, motion_secretary, quorum,
  not-false, arith,
}
use enterprise_management.StateFlags.{ByValue, get_flag_map}
use enterprise_management.Membership.{Forum, QuorumStatus, quorum_status}
use enterprise_management.Voting.{
  Motion, Chamber, forum_motion, outcome_field, refusal, need, save_motion,
}
use enterprise_management.Voting.Ballots.{tally}
use enterprise_management.Voting.Outcome.{cast_seats, forum_status, recorded, record_outcome}
use enterprise_management.Voting.Closed.{body_of, save_motion-inv}
use enterprise_management.Voting.Screen.{
  may_administer, is_standing_decision, record_motion_outcome,
}

-- What the recording of an outcome has passed, and what it saves.
pub record Decided (may_write : ℕ → Bool) (options : List ℕ) (c : Chamber) (motion outcome : ℕ)
    (chair : Bool) (user now : ℕ) (d : Chamber) : Type 0 where
  pub before : Motion
  pub found : read (λ (n : Motion). n.name) motion c.motions ≡ some before
  pub editable : before.editable ≡ true
  pub administers : may_administer may_write c before.forum user ≡ true
  pub offered : contains options outcome ≡ true
  pub status : QuorumStatus
  pub evaluated : forum_status c before (cast_seats c before.name) ≡ ok status
  pub quorate : is_standing_decision c outcome ≡ true → status.met ≡ true
  pub after : Motion
  pub saved :
      save_motion c true (recorded before (tally c before.name) status outcome user chair now)
      ≡ ok (d, after)

implied : (a b : Bool) → a ≡ true → (a && not b) ≡ false → b ≡ true
implied a b h k = ground arith

pub record_motion_outcome-Decided :
    (may_write : ℕ → Bool) (options : List ℕ) (c : Chamber) (motion outcome : ℕ) (chair : Bool)
    (user now : ℕ) {d : Chamber}
    → record_motion_outcome may_write options c motion outcome chair user now ≡ ok d
    → Decided may_write options c motion outcome chair user now d
unfolding record_motion_outcome record_outcome
record_motion_outcome-Decided may_write options c motion outcome chair user now {d} h =
    let (m, e, h1) = >>=-eq-ok (need (read (λ (n : Motion). n.name) motion c.motions)) _ h in
    let (may, h2) =
      refuse_if-eq-ok (not (may_administer may_write c m.forum user))
        (refusal motion other motion_secretary) _ h1 in
    let (listed, h3) = throw_if-eq-ok (not (contains options outcome)) unknown_outcome _ h2 in
    let (status, evaluated, h4) = >>=-eq-ok (forum_status c m (cast_seats c m.name)) _ h3 in
    let (quorate, h5) =
      refuse_if-eq-ok (is_standing_decision c outcome && not status.met)
        (refusal motion other quorum) _ h4 in
    let ((after, n), done, kept) =
      >>=-eq-ok (record_outcome c m outcome user chair (some (cast_seats c m.name)) now) _ h5 in
    let (editable, h6) = throw_if-eq-ok (not m.editable) outcome_already_recorded _ done in
    let (again, evaluated_again, saved) = >>=-eq-ok (forum_status c m (cast_seats c m.name)) _ h6 in
    let same : again ≡ status = ok-injective (sym evaluated_again ∙ evaluated) in
    record {
      before = m;
      found = demand-eq-ok _ _ e;
      editable = not-false m.editable editable;
      administers = not-false _ may;
      offered = not-false _ listed;
      status = status;
      evaluated = evaluated;
      quorate = λ stands. implied (is_standing_decision c outcome) status.met stands quorate;
      after = n;
      saved =
          subst
            (λ (x : QuorumStatus × Chamber).
              save_motion c true (recorded m (tally c m.name) x.0 outcome user chair now)
              ≡ ok (x.1, n))
            (ap (λ s. (s, after)) same ∙ ap (λ x. (status, x)) (ok-injective kept)) saved;
    }

-- The forum of the motion, and the quorum of the cast ballots as at the decision date.
abbrev pub IsQuorum : Chamber → Motion → List ℕ → QuorumStatus → Type 0
IsQuorum c m present status =
    (f : Forum) × (read (λ (g : Forum). g.name) m.forum c.register.forums ≡ some f)
    × (status ≡ quorum_status c.register f m.decision_date (some present))

forum_status-IsQuorum :
    (c : Chamber) (m : Motion) (present : List ℕ) {status : QuorumStatus}
    → forum_status c m present ≡ ok status
    → IsQuorum c m present status
unfolding forum_status
forum_status-IsQuorum c m present h =
    let (f, e, h1) =
      >>=-eq-ok (need (read (λ (g : Forum). g.name) m.forum c.register.forums)) _ h in
    (f, demand-eq-ok _ _ e, sym (ok-injective h1))

-- Where the state flags of the DocType are mapped by `outcome` alone, an outcome is recorded only on
-- an editable motion, by a user who may administer its forum, and only if it is one of the options.
-- The stored motion then carries the outcome, its recorder, the counters of the tally of its votes
-- (it has none for the recusals), and the quorum of the cast ballots as at its decision date; a
-- standing decision is stored as quorate.
pub record_motion_outcome-stored :
    (may_write : ℕ → Bool) (options : List ℕ) (c : Chamber) (motion outcome : ℕ) (chair : Bool)
    (user now : ℕ) (by_value : ByValue) {d : Chamber}
    → get_flag_map c.flag_rows forum_motion ≡ (outcome_field, by_value) ∷ []
    → record_motion_outcome may_write options c motion outcome chair user now ≡ ok d
    → (m n : Motion) × (read (λ (x : Motion). x.name) motion c.motions ≡ some m)
      × (read (λ (x : Motion). x.name) motion d.motions ≡ some n)
      × (m.editable ≡ true)
      × (may_administer may_write c m.forum user ≡ true)
      × (contains options outcome ≡ true)
      × ((status : QuorumStatus) × IsQuorum c m (cast_seats c motion) status
          × (body_of n ≡ body_of (recorded m (tally c motion) status outcome user chair now))
          × (is_standing_decision c outcome ≡ true → n.recording.quorum_met ≡ true))
unfolding recorded
record_motion_outcome-stored may_write options c motion outcome chair user now by_value {d} mapped
      h =
    let r = record_motion_outcome-Decided may_write options c motion outcome chair user now h in
    let m = r.before in
    let plan = recorded m (tally c m.name) r.status outcome user chair now in
    let (same_body, frozen, stored, closes) = save_motion-inv c by_value mapped true plan r.saved in
    let named : m.name ≡ motion = read-name (λ (x : Motion). x.name) motion c.motions r.found in
    let after_named : r.after.name ≡ motion = ap (λ (x : Motion). x.name) same_body ∙ named in
    (
      m,
      r.after,
      r.found,
      rw stored
          (read-write_self (λ (x : Motion). x.name) r.after motion c.motions after_named r.found),
      r.editable,
      r.administers,
      r.offered,
      (
        r.status,
        subst (λ k. IsQuorum c m (cast_seats c k) r.status) named
            (forum_status-IsQuorum c m (cast_seats c m.name) r.evaluated),
        subst
            (λ k.
              body_of r.after ≡ body_of (recorded m (tally c k) r.status outcome user chair now))
            named same_body,
        λ stands. ap (λ (x : Motion). x.recording.quorum_met) same_body ∙ r.quorate stands,
      ),
    )

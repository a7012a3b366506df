-- ===== src/Voting/Closed/Steps.antt =====
-- Any run of the voting operations, with any change of the register: a closed motion stays closed.
use enterprise_management.Base.{
  not, ok-injective, >>=-eq-ok, >>-eq-ok, some-injective, Refusal, ℕ, ◌≡◌, ◌≢◌, refl, sym, ◌∙◌, ap,
  subst, inl, inr, Option, some, Bool, true, false, List, [], ◌∷◌, ◌==◌, ==_iff, read,
  read-write_self, read-write_other, read-name, ok, refuse_if, Bool-cases, not-false,
}
use enterprise_management.StateFlags.{ByValue, get_flag_map}
use enterprise_management.Membership.{Register}
use enterprise_management.Voting.{
  Motion, Chamber, Position, forum_motion, outcome_field, same_frozen, guard_frozen, save_motion,
}
use enterprise_management.Voting.Ballots.Entitled.{cast_vote-Entitled}
use enterprise_management.Voting.Outcome.{recorded}
use enterprise_management.Voting.Ballots.{tally}
use enterprise_management.Voting.Screen.{cast_my_vote, record_motion_outcome}
use enterprise_management.Voting.Ballots.{open_motion}
use enterprise_management.Voting.Ballots.Opening.{open_motion-Frame}
use enterprise_management.Voting.Screen.{propose_motion, insert_motion, new_motion, may_administer}
use enterprise_management.Base.{
  ◌<◌, ◌+◌, ◌++◌, ◌||◌, none, throw_if, thrown, demand, is_some, no_permission, forum_inactive,
  motion_incomplete, read-append, arith,
}
use enterprise_management.Voting.Closed.Proposing.{insert_motion-inv, opened-read, opened-rest}
use enterprise_management.Voting.Screen.Own.{cast_my_vote-IsOwn}
use enterprise_management.Voting.Screen.Secretary.{record_motion_outcome-Decided}
use enterprise_management.Voting.Closed.{IsClosing, frozen_of, save_motion-inv, same_frozen-eq}

-- The motion of that name is stored as closed by an outcome, which the flags make not editable.
pub record Sealed (by_value : ByValue) (k : ℕ) (c : Chamber) (n : Motion) : Type 0 where
  pub mapped : get_flag_map c.flag_rows forum_motion ≡ (outcome_field, by_value) ∷ []
  pub stored : read (λ (m : Motion). m.name) k c.motions ≡ some n
  pub closed : n.editable ≡ false
  pub closing : IsClosing by_value n.recording.outcome
  -- New names come after it.
  pub older : k < c.next_name

refused_unless : (t : Bool) (r : Refusal) → refuse_if t r ≡ ok tt → t ≡ false
refused_unless true r h = cc
refused_unless false r h = refl

closed_frozen :
    (m n : Motion)
    → n.editable ≡ false
    → guard_frozen false (some n) m ≡ ok tt
    → frozen_of n ≡ frozen_of m
unfolding guard_frozen same_frozen
closed_frozen m n closed h =
    same_frozen-eq n m (not-false (same_frozen n m) (refused_unless _ _ (rw closed at h)))

module _ (may_write : ℕ → Bool) (options : List ℕ) where
  -- An operation of the program, or a change of the register.
  pub data Step : Chamber → Chamber → Type 0 where
    cast :
        {c d : Chamber} (motion membership : ℕ) (position : Position) (rationale : Option ℕ)
        (user now : ℕ)
        → cast_my_vote c motion membership position rationale user now ≡ ok d
        → Step c d
    decide :
        {c d : Chamber} (motion outcome : ℕ) (chair : Bool) (user now : ℕ)
        → record_motion_outcome may_write options c motion outcome chair user now ≡ ok d
        → Step c d
    edit : {c d : Chamber} (given m : Motion) → save_motion c false given ≡ ok (d, m) → Step c d
    propose :
        {c d : Chamber} (may_read : ℕ → Bool) (forum : ℕ)
        (reference wording decision_date meeting : Option ℕ) (user now motion : ℕ)
        → propose_motion may_read may_write c forum reference wording decision_date meeting user now
          ≡ ok (d, motion)
        → Step c d
    reseat : {c : Chamber} (r : Register) → Step c (record c { register = r })

  pub data Steps : Chamber → Chamber → Type 0 where
    done : {c : Chamber} → Steps c c
    onward : {b c d : Chamber} → Steps b c → Step c d → Steps b d

  abbrev pub StillSealed : ByValue → ℕ → Chamber → Motion → Type 0
  StillSealed by_value k d n = (n' : Motion) × Sealed by_value k d n' × (frozen_of n' ≡ frozen_of n)

  edit-StillSealed :
      (by_value : ByValue) (k : ℕ) {c d : Chamber} (n given m : Motion)
      → Sealed by_value k c n
      → save_motion c false given ≡ ok (d, m)
      → StillSealed by_value k d n
  unfolding guard_frozen
  edit-StillSealed by_value k {c} {d} n given m z h =
      let (same_body, frozen, after, closes) = save_motion-inv c by_value z.mapped false given h in
      elim (Bool-cases (m.name == k)) [
        | inl e ↦
            let named = (==_iff m.name k).0 e in
            let unchanged = closed_frozen m n z.closed (
              subst (λ o. guard_frozen false o m ≡ ok tt)
                (ap (λ i. read (λ (x : Motion). x.name) i c.motions) named ∙ z.stored) frozen) in
            let outcome : n.recording.outcome ≡ m.recording.outcome =
              ap (λ x. x.1.outcome) unchanged in
            let closing = subst (IsClosing by_value) outcome z.closing in
            (
              m,
              record {
                mapped = rw after z.mapped;
                older = rw after z.older;
                stored =
                    rw after
                      (read-write_self (λ (x : Motion). x.name) m k c.motions named z.stored);
                closed = closes closing;
                closing = closing;
              },
              sym unchanged,
            )
        | inr e ↦ (
          n,
          record {
            mapped = rw after z.mapped;
            older = rw after z.older;
            stored = rw after (
                read-write_other (λ (x : Motion). x.name) m k c.motions
                  (λ q. cc ((==_iff m.name k).1 q, e))
                ∙ z.stored);
            closed = z.closed;
            closing = z.closing;
          },
          refl,
        )
      ]

  decide-StillSealed :
      (by_value : ByValue) (k : ℕ) {c d : Chamber} (n : Motion) (motion outcome : ℕ) (chair : Bool)
      (user now : ℕ)
      → Sealed by_value k c n
      → record_motion_outcome may_write options c motion outcome chair user now ≡ ok d
      → StillSealed by_value k d n
  unfolding recorded
  decide-StillSealed by_value k {c} {d} n motion outcome chair user now z h =
      let r = record_motion_outcome-Decided may_write options c motion outcome chair user now h in
      let (same_body, frozen, after, closes) =
        save_motion-inv c by_value z.mapped true
          (recorded r.before (tally c r.before.name) r.status outcome user chair now) r.saved in
      let named : r.after.name ≡ motion =
        ap (λ (x : Motion). x.name) same_body
        ∙ read-name (λ (x : Motion). x.name) motion c.motions r.found in
      let other : r.after.name ≢ k = λ q.
        let same : r.before ≡ n = some-injective (
          sym r.found
          ∙ ap (λ i. read (λ (x : Motion). x.name) i c.motions) (sym named ∙ q)
          ∙ z.stored) in
        cc (ap (λ (x : Motion). x.editable) same, r.editable, z.closed) in
      (
        n,
        record {
          mapped = rw after z.mapped;
          older = rw after z.older;
          stored =
              rw after
                (read-write_other (λ (x : Motion). x.name) r.after k c.motions other ∙ z.stored);
          closed = z.closed;
          closing = z.closing;
        },
        refl,
      )

  cast-StillSealed :
      (by_value : ByValue) (k : ℕ) {c d : Chamber} (n : Motion) (motion membership : ℕ)
      (position : Position) (rationale : Option ℕ) (user now : ℕ)
      → Sealed by_value k c n
      → cast_my_vote c motion membership position rationale user now ≡ ok d
      → StillSealed by_value k d n
  cast-StillSealed by_value k {c} {d} n motion membership position rationale user now z h =
      let (m, found, good, (r, named, own, (w, ballot))) =
        cast_my_vote-IsOwn c motion membership position rationale user now h in
      let (e, row, may, after) =
        cast_vote-Entitled c m membership position (some user) rationale r.as_delegate now ballot in
      (
        n,
        rw after (record {
          mapped = z.mapped;
          older = z.older;
          stored = z.stored;
          closed = z.closed;
          closing = z.closing;
        }),
        refl,
      )

  open-Sealed :
      (by_value : ByValue) (k : ℕ) (n : Motion) (c d : Chamber) (m : Motion) (now : ℕ) {e : Chamber}
      {created : List ℕ}
      → Sealed by_value k c n
      → d ≡ record c { motions = c.motions ++ m ∷ []; next_name = c.next_name + 1 }
      → m.name ≡ c.next_name
      → open_motion d m none now ≡ ok (e, created)
      → Sealed by_value k e n
  open-Sealed by_value k n c d m now {e} z inserted name h =
      let (f, (motions, rows, up), last) = open_motion-Frame d m none now h in
      let (flags, next) = opened-rest f m now in
      let older = z.older in
      let fresh : m.name ≢ k = λ q. absurd (omega arith) in
      let bound : d.next_name ≡ c.next_name + 1 = ap (λ (x : Chamber). x.next_name) inserted in
      record {
        mapped = rw (last, flags, rows, inserted) z.mapped;
        stored = rw last (
            opened-read f m now k fresh
            ∙ ap (read (λ (x : Motion). x.name) k)
                (motions ∙ ap (λ (x : Chamber). x.motions) inserted)
            ∙ read-append (λ (x : Motion). x.name) k c.motions m z.stored);
        closed = z.closed;
        closing = z.closing;
        older = rw last (rw next (omega arith));
      }

  propose-StillSealed :
      (by_value : ByValue) (k : ℕ) {c d : Chamber} (n : Motion) (may_read : ℕ → Bool) (forum : ℕ)
      (reference wording decision_date meeting : Option ℕ) (user now motion : ℕ)
      → Sealed by_value k c n
      → propose_motion may_read may_write c forum reference wording decision_date meeting user now
        ≡ ok (d, motion)
      → StillSealed by_value k d n
  unfolding propose_motion
  propose-StillSealed by_value k {c} {d} n may_read forum reference wording decision_date meeting
        user now motion z h =
      let (h0, h1) = >>-eq-ok (throw_if (not (may_read user)) no_permission) _ h in
      let (h2, h3) = >>-eq-ok (refuse_if (not (may_administer may_write c forum user)) _) _ h1 in
      let (h4, h5) = >>-eq-ok (throw_if _ forum_inactive) _ h3 in
      let (h6, h7) =
        >>-eq-ok (throw_if (not (is_some reference) || not (is_some wording)) motion_incomplete) _
          h5 in
      let (day, h8, h9) = >>=-eq-ok (demand decision_date (thrown motion_incomplete)) _ h7 in
      let ((f, m), inserted, h10) =
        >>=-eq-ok (insert_motion c (new_motion c.next_name forum meeting day)) _ h9 in
      let ((e, created), opens, h11) = >>=-eq-ok (open_motion f m none now) _ h10 in
      let (name, after) =
        insert_motion-inv by_value c (new_motion c.next_name forum meeting day) z.mapped inserted in
      let sealed = open-Sealed by_value k n c f m now z after name opens in
      (n, subst (λ x. Sealed by_value k x n) (ap (λ p. p.0) (ok-injective h11)) sealed, refl)

  Step-StillSealed :
      (by_value : ByValue) (k : ℕ) {c d : Chamber} (n : Motion)
      → Step c d
      → Sealed by_value k c n
      → StillSealed by_value k d n
  Step-StillSealed by_value k n (cast motion membership position rationale user now h) z =
      cast-StillSealed by_value k n motion membership position rationale user now z h
  Step-StillSealed by_value k n (decide motion outcome chair user now h) z =
      decide-StillSealed by_value k n motion outcome chair user now z h
  Step-StillSealed by_value k n (edit given m h) z = edit-StillSealed by_value k n given m z h
  Step-StillSealed by_value k n
        (propose may_read forum reference wording decision_date meeting user now motion h) z =
      propose-StillSealed by_value k n may_read forum reference wording decision_date meeting user
        now motion z h
  Step-StillSealed by_value k n (reseat r) z = (
    n,
    record {
      mapped = z.mapped;
      older = z.older;
      stored = z.stored;
      closed = z.closed;
      closing = z.closing;
    },
    refl,
  )

  -- A motion that is stored as closed, by an outcome whose configured flags make it not editable,
  -- in a DocType whose flags are mapped by `outcome` alone, is closed for good: where new names
  -- come after its own, after any run of ballots, recorded outcomes, edited and newly proposed
  -- motions and arbitrary changes of the register, it is stored and not editable, and its decision date, its counters, its quorum and
  -- its outcome are those it was closed with.
  pub Steps-StillSealed :
      (by_value : ByValue) (k : ℕ) {c d : Chamber} (n : Motion)
      → Steps c d
      → Sealed by_value k c n
      → StillSealed by_value k d n
  Steps-StillSealed by_value k n done z = (n, z, refl)
  Steps-StillSealed by_value k n (onward steps step) z =
      let (n', z', same) = Steps-StillSealed by_value k n steps z in
      let (n'', z'', same') = Step-StillSealed by_value k n' step z' in (n'', z'', same' ∙ same)

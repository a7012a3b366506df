-- ===== src/Voting/Closed.antt =====
-- The saves of a motion: what a save keeps, and that a closed motion stays closed.
pub mod Proposing
pub mod Steps
use enterprise_management.Base.{
  ℕ, ◌≡◌, refl, sym, ◌∙◌, ap, subst, Option, none, some, Bool, true, false, not, ◌&&◌, [], ◌∷◌,
  ◌==◌, same, is_some, same→eq, bool_eq, ==_iff, &&_parts, get, read, write, arith, ok, ◌>>=◌, ◌>>◌,
  >>=-eq-ok, >>-eq-ok, ok-injective, some-injective, throw_if-eq-ok, wrong_forum, holds_name,
}
use enterprise_management.StateFlags.{
  Flag, is_editable, Flags, ByValue, get_flag_map, apply_state_flags,
}
use enterprise_management.StateFlags.Keeps.{apply_state_flags-keeps, apply_state_flags-single}
use enterprise_management.Voting.{
  Counters, counts_eq, Recording, Motion, Chamber, forum_motion, outcome_field, motion_doc,
  set_flag, same_frozen, guard_frozen, validate_motion, save_motion, meeting_forum,
}

-- What no flag changes of a motion.
abbrev pub body_of : Motion → Motion
body_of m = record m { editable = false; open_flag = false }

body_of-blind : (m : Motion) (f : Flag) (b : Bool) → body_of (set_flag m f b) ≡ body_of m
body_of-blind m f b = ground arith

-- The columns that FROZEN_FIELDS names.
abbrev pub frozen_of : Motion → ℕ × Recording
frozen_of m = (m.decision_date, m.recording)

bool_eq→eq : (a b : Bool) → bool_eq a b ≡ true → a ≡ b
bool_eq→eq a b h = ground arith

counts_eq-eq : (a b : Counters) → counts_eq a b ≡ true → a ≡ b
counts_eq-eq a b h =
    let (eligible, r0) = &&_parts (a.eligible_voter_count == b.eligible_voter_count) _ h in
    let (cast, r1) = &&_parts (a.votes_cast == b.votes_cast) _ r0 in
    let (votes_for, r2) = &&_parts (a.votes_for == b.votes_for) _ r1 in
    let (against, abstained) = &&_parts (a.votes_against == b.votes_against) _ r2 in
    cc (
      (==_iff a.eligible_voter_count b.eligible_voter_count).0 eligible,
      (==_iff a.votes_cast b.votes_cast).0 cast,
      (==_iff a.votes_for b.votes_for).0 votes_for,
      (==_iff a.votes_against b.votes_against).0 against,
      (==_iff a.abstentions b.abstentions).0 abstained,
    )

same_frozen-eq : (a b : Motion) → same_frozen a b ≡ true → frozen_of a ≡ frozen_of b
unfolding same_frozen
same_frozen-eq a b h =
    let (date, r0) = &&_parts (a.decision_date == b.decision_date) _ h in
    let (counts, r1) = &&_parts (counts_eq a.recording.counts b.recording.counts) _ r0 in
    let (required, r2) =
      &&_parts (a.recording.quorum_required == b.recording.quorum_required) _ r1 in
    let (met, r3) = &&_parts (bool_eq a.recording.quorum_met b.recording.quorum_met) _ r2 in
    let (outcome, r4) = &&_parts (same a.recording.outcome b.recording.outcome) _ r3 in
    let (recorder, r5) =
      &&_parts (same a.recording.outcome_recorded_by b.recording.outcome_recorded_by) _ r4 in
    let (chair, closed) =
      &&_parts (bool_eq a.recording.chair_casting_vote_used b.recording.chair_casting_vote_used) _
        r5 in
    cc (
      (==_iff a.decision_date b.decision_date).0 date,
      counts_eq-eq a.recording.counts b.recording.counts counts,
      (==_iff a.recording.quorum_required b.recording.quorum_required).0 required,
      bool_eq→eq a.recording.quorum_met b.recording.quorum_met met,
      same→eq a.recording.outcome b.recording.outcome outcome,
      same→eq a.recording.outcome_recorded_by b.recording.outcome_recorded_by recorder,
      bool_eq→eq a.recording.chair_casting_vote_used b.recording.chair_casting_vote_used chair,
      same→eq a.recording.closed_on b.recording.closed_on closed,
    )

-- The value of `outcome` decides the flags, and they say that the motion is closed.
abbrev pub IsClosing : ByValue → Option ℕ → Type 0
IsClosing by_value none = ⊥
IsClosing by_value (some o) =
    (flags : Flags) × (get o by_value ≡ some flags) × (flags is_editable ≡ false)

module _ (c : Chamber) (by_value : ByValue)
    (mapped : get_flag_map c.flag_rows forum_motion ≡ (outcome_field, by_value) ∷ []) where
  validate_motion-inv :
      (recording_outcome : Bool) (g : Motion) {m : Motion}
      → validate_motion c recording_outcome g ≡ ok m
      → (apply_state_flags motion_doc c.workflow_field (get_flag_map c.flag_rows forum_motion) g
          ≡ ok m)
        × (guard_frozen recording_outcome (read (λ (n : Motion). n.name) m.name c.motions) m
            ≡ ok tt)
  unfolding validate_motion
  validate_motion-inv recording_outcome g {m} h =
      let (y, flagged, h1) =
        >>=-eq-ok
          (apply_state_flags motion_doc c.workflow_field (get_flag_map c.flag_rows forum_motion) g)
          _ h in
      let (frozen, h2) =
        >>-eq-ok (guard_frozen recording_outcome (read (λ (n : Motion). n.name) y.name c.motions) y)
          _ h1 in
      let (meeting, h3) =
        throw_if-eq-ok
          (is_some (meeting_forum y.meeting c.meetings)
            && not (holds_name (meeting_forum y.meeting c.meetings) y.forum))
          wrong_forum _ h2 in
      subst
        (λ (x : Motion).
          (apply_state_flags motion_doc c.workflow_field (get_flag_map c.flag_rows forum_motion) g
            ≡ ok x)
          × (guard_frozen recording_outcome (read (λ (n : Motion). n.name) x.name c.motions) x
              ≡ ok tt))
        (ok-injective h3) (flagged, frozen)

  pub validate_motion-name :
      (recording_outcome : Bool) (g : Motion) {m : Motion}
      → validate_motion c recording_outcome g ≡ ok m
      → m.name ≡ g.name
  validate_motion-name recording_outcome g h =
      let (flagged, frozen) = validate_motion-inv recording_outcome g h in
      ap (λ (x : Motion). x.name)
        (apply_state_flags-keeps motion_doc body_of body_of-blind c.workflow_field _ g flagged)

  closes :
      (g : Motion) (o : Option ℕ) {m : Motion}
      → g.recording.outcome ≡ o
      → apply_state_flags motion_doc c.workflow_field (get_flag_map c.flag_rows forum_motion) g
        ≡ ok m
      → IsClosing by_value o
      → m.editable ≡ false
  closes g none e h closing = absurd closing
  closes g (some o) e h (flags, configured, closed) =
      let (set_as, found, declared) =
        apply_state_flags-single motion_doc c.workflow_field outcome_field o by_value g refl e
          (rw mapped at h) in
      let agree : set_as ≡ flags = some-injective (sym found ∙ configured) in
      declared is_editable refl ∙ ap (λ (f : Flags). f is_editable) agree ∙ closed

  pub save_motion-inv :
      (recording_outcome : Bool) (g : Motion) {d : Chamber} {m : Motion}
      → save_motion c recording_outcome g ≡ ok (d, m)
      → (body_of m ≡ body_of g)
        × (guard_frozen recording_outcome (read (λ (n : Motion). n.name) m.name c.motions) m
            ≡ ok tt)
        × (d ≡ record c { motions = write (λ (n : Motion). n.name) m c.motions })
        × (IsClosing by_value m.recording.outcome → m.editable ≡ false)
  unfolding save_motion
  save_motion-inv recording_outcome g {d} {m} h =
      let (x, valid, e) = >>=-eq-ok (validate_motion c recording_outcome g) _ h in
      let stored = ap (λ p. p.1) (ok-injective e) in
      let valid_m =
        subst (λ (y : Motion). validate_motion c recording_outcome g ≡ ok y) stored valid in
      let (flagged, frozen) = validate_motion-inv recording_outcome g valid_m in
      let same_body =
        apply_state_flags-keeps motion_doc body_of body_of-blind c.workflow_field _ g flagged in
      (
        same_body,
        frozen,
        sym (ap (λ p. p.0) (ok-injective e))
            ∙ ap (λ (y : Motion). record c { motions = write (λ (n : Motion). n.name) y c.motions })
                stored,
        closes g m.recording.outcome (ap (λ (n : Motion). n.recording.outcome) (sym same_body))
            flagged,
      )

-- ===== src/Approvals/Recording.antt =====
-- What it takes to record a decision, and what recording one leaves.
use enterprise_management.Base.{
  get, ℕ, ◌≡◌, refl, sym, ◌∙◌, ap, subst, ◌≢◌, ◌⊎◌, inl, inr, write, write-other, write-mem, Option,
  some, Bool, true, false, not, ◌&&◌, List, [], ◌∷◌, Memᴰ, Bool-cases, is_some, is_empty, arith,
  Result, ok, refuse_if-eq-ok, >>=-eq-ok,
}
use enterprise_management.StateFlags.{
  Flag, Flags, ByValue, is_open, requires_review, is_affirmative, get_flag_map,
}
use enterprise_management.StateFlags.Keeps.{apply_state_flags-keeps, apply_state_flags-single}
use enterprise_management.Delegation.{Delegation, action_approve}
use enterprise_management.Delegation.Cover.{Covers, resolve_actor-permitted_iff}
use enterprise_management.Approvals.{
  Decision, Store, decision_doc, approval_decision, decision_field, validate, save, is_parallel,
  waiting_on, is_turn, out_of_turn, not_permitted, resolution_of, decided, set_flag,
  record_decision,
}
use enterprise_management.Approvals.Turns.{IsAhead, waiting_on_iff}

-- The acting user is the assignee, or holds a delegation that covers approving the record.
abbrev pub MayDecide : Store → Decision → ℕ → ℕ → Type 0
MayDecide store row acting_user today =
    (acting_user ≡ row.assigned_to)
    ⊎ ((d : Delegation) × Memᴰ d store.delegations
        × Covers row.assigned_to action_approve acting_user (some row.subject_doctype)
            (some row.subject_name) today d)

-- A parallel step, or one with no open step ahead of it.
abbrev pub IsDue : Store → Decision → Type 0
IsDue store row =
    (is_parallel row.mode ≡ true) ⊎ ((r : Decision) → Memᴰ r store.decisions → ¬ IsAhead row r)

no_members : (xs : List Decision) → is_empty xs ≡ true → (r : Decision) → ¬ Memᴰ r xs
no_members [] h r m = elim m [ ]
no_members (x ∷ xs) h r m = cc

is_turn-IsDue : (store : Store) (row : Decision) → is_turn store row ≡ true → IsDue store row
unfolding is_turn
is_turn-IsDue store row h = elim (Bool-cases (is_parallel row.mode)) [
  | inl p ↦ inl p
  | inr p ↦
      inr (λ r m a. no_members (waiting_on store row) h r ((waiting_on_iff store row r p).1 (m, a)))
]

module _ (store : Store) (row : Decision) (label : ℕ) (comments : Option ℕ) (acting_user : ℕ)
    (exception : Option ℕ) (today now : ℕ) where
  abbrev outcome : Result (Store × Decision)
  outcome = record_decision store row label comments acting_user exception today now

  abbrev as_decided : Decision
  as_decided =
      decided row label comments acting_user (resolution_of store row acting_user today).delegation
        exception now

  record_decision-inv :
      {after : Store × Decision}
      → outcome ≡ ok after
      → ((is_some exception ≡ true) ⊎ (is_turn store row ≡ true))
        × ((resolution_of store row acting_user today).permitted ≡ true)
        × (save store as_decided ≡ ok after)
  unfolding record_decision
  record_decision-inv h =
      let (due, rest) = refuse_if-eq-ok _ (out_of_turn row) _ h in
      let (permitted, saved) = refuse_if-eq-ok _ (not_permitted row) _ rest in
      (in_turn due, is_permitted permitted, saved)
    where
      in_turn :
          (not (is_some exception) && not (is_turn store row)) ≡ false
          → (is_some exception ≡ true) ⊎ (is_turn store row ≡ true)
      in_turn e = ground arith

      is_permitted :
          not (resolution_of store row acting_user today).permitted ≡ false
          → (resolution_of store row acting_user today).permitted ≡ true
      is_permitted e = ground arith

  -- A decision is recorded only in its turn, or under an exception authorisation, and only by
  -- the assignee or under a delegation that covers approving the record.
  pub record_decision-authorised :
      {after : Store × Decision}
      → outcome ≡ ok after
      → ((is_some exception ≡ true) ⊎ IsDue store row) × MayDecide store row acting_user today
  record_decision-authorised h =
      let (due, permitted, saved) = record_decision-inv h in
      (
        elim due [ inl e ↦ inl e | inr t ↦ inr (is_turn-IsDue store row t) ],
        (resolve_actor-permitted_iff store.delegations row.assigned_to action_approve acting_user
              (some row.subject_doctype) (some row.subject_name) today).0
            permitted,
      )

-- What no flag changes of a row.
abbrev pub row_of : Decision → Decision
row_of d = record d { open_flag = false; review_flag = false; affirmative_flag = false }

row_of-blind : (d : Decision) (f : Flag) (b : Bool) → row_of (set_flag d f b) ≡ row_of d
row_of-blind d f b = ground arith

module _ (store : Store) (row : Decision) (label : ℕ) (comments : Option ℕ) (acting_user : ℕ)
    (exception : Option ℕ) (today now : ℕ) where
  save-inv :
      (d : Decision) {after : Store} {d' : Decision}
      → save store d ≡ ok (after, d')
      → (validate store d ≡ ok d')
        × (after ≡ record store { decisions = write (λ (r : Decision). r.name) d' store.decisions })
  unfolding save
  save-inv d h =
      let (m, e, p) =
        >>=-eq-ok (validate store d)
          (λ x.
            ok (record store { decisions = write (λ (r : Decision). r.name) x store.decisions }, x))
          h in
      (ground arith, ground arith)

  record Recorded (by_value : ByValue) (after : Store) (d : Decision) : Type 0 where
    row_fields :
        row_of d ≡ row_of (as_decided store row label comments acting_user exception today now)
    flags : Flags
    configured : get label by_value ≡ some flags
    open_flag : d.open_flag ≡ flags is_open
    review_flag : d.review_flag ≡ flags requires_review
    affirmative_flag : d.affirmative_flag ≡ flags is_affirmative
    others_kept :
        (e : Decision) → Memᴰ e store.decisions → e.name ≢ row.name → Memᴰ e after.decisions
    none_invented :
        (e : Decision)
        → Memᴰ e after.decisions
        → (e ≡ d) ⊎ (Memᴰ e store.decisions × (e.name ≢ row.name))

  -- Where the DocType's flags are mapped by `decision` alone, a recorded decision is the row with
  -- the given label, comments, actor, delegation and exception, and the flags configured for the
  -- label; every other row stays, and no row appears.
  record_decision-Recorded :
      (by_value : ByValue) {after : Store} {d : Decision}
      → get_flag_map store.flag_rows approval_decision ≡ (decision_field, by_value) ∷ []
      → record_decision store row label comments acting_user exception today now ≡ ok (after, d)
      → Recorded by_value after d
  unfolding validate
  record_decision-Recorded by_value {after} {d} mapped h =
      let plan = as_decided store row label comments acting_user exception today now in
      let saved =
        (record_decision-inv store row label comments acting_user exception today now h).2 in
      let (valid, stored) = save-inv plan saved in
      let same =
        apply_state_flags-keeps decision_doc row_of row_of-blind store.workflow_field _ plan
          valid in
      let named = ap (λ (r : Decision). r.name) same in
      let (flags, configured, declared) =
        apply_state_flags-single decision_doc store.workflow_field decision_field label by_value
          plan refl refl (rw mapped at valid) in
      record {
        row_fields = same;
        flags = flags;
        configured = configured;
        open_flag = declared is_open refl;
        review_flag = declared requires_review refl;
        affirmative_flag = declared is_affirmative refl;
        others_kept =
            λ e m ne. rw stored (write-other (λ (r : Decision). r.name) d m (λ q. ne (q ∙ named)));
        none_invented = λ e m.
            elim (write-mem (λ (r : Decision). r.name) d store.decisions
              (subst (λ (t : Store). Memᴰ e t.decisions) stored m)) [
                | inl p ↦ inl p
                | inr (n, ne) ↦ inr (n, λ q. ne (q ∙ sym named))
              ];
      }

-- ===== src/Delegation/Cover.antt =====
-- Who may act: `resolve_actor` against a description of the delegations that permit it.
use enterprise_management.Base.{
  ℕ, ◌≡◌, refl, ◌⊎◌, inl, inr, ◌↔◌, Option, some, true, List, [], ◌∷◌, Memᴰ, map, ◌==◌, ==_iff,
  Bool-cases, same→eq, same_refl, filter, mem-filter, filter-mem, contains-mem, mem-contains, arith,
  StartedBy, NotOverBy, is_after-StartedBy, is_before-NotOverBy,
}
use enterprise_management.Delegation.{
  Delegation, ScopeType, all_records, by_doctype, one_record, forum, is_within_dates, covers_scope,
  covers_as, is_candidate, is_live_for, find_delegations, resolve_actor, resolve_among,
}

-- What a scope says of the record at hand, by its type.
abbrev pub InScope : ScopeType → Delegation → Option ℕ → Option ℕ → Type 0
InScope all_records d doctype name = Unit {0}
InScope by_doctype d doctype name = d.scope_doctype ≡ doctype
InScope one_record d doctype name = (d.scope_doctype ≡ doctype) × (d.scope_record ≡ name)
InScope forum d doctype name = (d.scope_doctype ≡ doctype) × (d.scope_record ≡ name)

-- The delegation lets `acting` do `action` for `accountable` on the record, on the day.
pub record Covers (accountable action acting : ℕ) (doctype name : Option ℕ) (today : ℕ)
    (d : Delegation) : Type 0 where
  pub from_accountable : d.delegator ≡ accountable
  pub to_acting : d.delegate ≡ acting
  pub active : d.is_active ≡ true
  pub started : StartedBy d.valid_from today
  pub not_over : NotOverBy d.valid_to today
  pub names_action : Memᴰ action d.delegated_actions
  pub in_scope : InScope d.scope_type d doctype name

within_iff :
    (d : Delegation) (day : ℕ)
    → (is_within_dates d day ≡ true) ↔ (StartedBy d.valid_from day × NotOverBy d.valid_to day)
unfolding is_within_dates
within_iff d day =
    let (s, s') = is_after-StartedBy d.valid_from day in
    let (o, o') = is_before-NotOverBy d.valid_to day in
    (λ h. (s (ground arith), o (ground arith)), λ (x, y). rw (s' x, o' y))

scope_sound :
    (t : ScopeType) (d : Delegation) (doctype name : Option ℕ)
    → covers_as t d doctype name ≡ true
    → InScope t d doctype name
unfolding covers_as
scope_sound all_records d doctype name h = tt
scope_sound by_doctype d doctype name h = same→eq _ _ h
scope_sound one_record d doctype name h =
    (same→eq d.scope_doctype doctype (ground arith), same→eq d.scope_record name (ground arith))
scope_sound forum d doctype name h =
    (same→eq d.scope_doctype doctype (ground arith), same→eq d.scope_record name (ground arith))

scope_complete :
    (t : ScopeType) (d : Delegation) (doctype name : Option ℕ)
    → InScope t d doctype name
    → covers_as t d doctype name ≡ true
unfolding covers_as
scope_complete all_records d doctype name h = refl
scope_complete by_doctype d doctype name h = rw h (same_refl doctype)
scope_complete one_record d doctype name (h, k) = rw (h, k) (rw (same_refl doctype, same_refl name))
scope_complete forum d doctype name (h, k) = rw (h, k) (rw (same_refl doctype, same_refl name))

module _ (acting action accountable : ℕ) where
  among-permitted :
      (ds : List Delegation)
      → (resolve_among (map (λ d. d.name) ds) acting action accountable).permitted ≡ true
      → (d : Delegation) × Memᴰ d ds
  unfolding resolve_among
  among-permitted [] h = cc
  among-permitted (d ∷ ds) h = (d, Memᴰ.head refl)

  mem-among :
      {d : Delegation} {ds : List Delegation}
      → Memᴰ d ds
      → (resolve_among (map (λ d. d.name) ds) acting action accountable).permitted ≡ true
  unfolding resolve_among
  mem-among (Memᴰ.head e) = refl
  mem-among (Memᴰ.tail m) = refl

  among-delegation :
      (ds : List Delegation) {n : ℕ}
      → (resolve_among (map (λ d. d.name) ds) acting action accountable).delegation ≡ some n
      → (d : Delegation) × Memᴰ d ds × (d.name ≡ n)
  unfolding resolve_among
  among-delegation [] h = cc
  among-delegation (d ∷ ds) h = (d, Memᴰ.head refl, ground arith)

module _ (table : List Delegation) (accountable action acting : ℕ) (doctype name : Option ℕ)
    (today : ℕ) where
  passes-Covers :
      (d : Delegation)
      → is_candidate accountable (some acting) d ≡ true
      → is_live_for action doctype name today d ≡ true
      → Covers accountable action acting doctype name today d
  unfolding is_candidate is_live_for covers_scope
  passes-Covers d c l =
      let dates = (within_iff d today).0 (ground arith) in
      record {
        from_accountable = ground arith;
        to_acting = ground arith;
        active = ground arith;
        started = dates.0;
        not_over = dates.1;
        names_action = contains-mem d.delegated_actions action (ground arith);
        in_scope = scope_sound d.scope_type d doctype name (ground arith);
      }

  Covers-passes :
      (d : Delegation)
      → Covers accountable action acting doctype name today d
      → (is_candidate accountable (some acting) d ≡ true)
        × (is_live_for action doctype name today d ≡ true)
  unfolding is_candidate is_live_for covers_scope
  Covers-passes d c =
      let w = (within_iff d today).1 (c.started, c.not_over) in
      let a = mem-contains d.delegated_actions action c.names_action in
      let s = scope_complete d.scope_type d doctype name c.in_scope in
      (ground arith, ground (arith, w, a, s))

  abbrev found : List Delegation
  found =
      filter (is_live_for action doctype name today)
        (filter (is_candidate accountable (some acting)) table)

  found-Covers :
      {d : Delegation}
      → Memᴰ d found
      → Memᴰ d table × Covers accountable action acting doctype name today d
  found-Covers {d} m =
      let (m', l) = mem-filter (is_live_for action doctype name today) _ m in
      let (m'', c) = mem-filter (is_candidate accountable (some acting)) table m' in
      (m'', passes-Covers d c l)

  Covers-found :
      {d : Delegation}
      → Memᴰ d table
      → Covers accountable action acting doctype name today d
      → Memᴰ d found
  Covers-found {d} m c =
      let (p, q) = Covers-passes d c in
      filter-mem (is_live_for action doctype name today)
        (filter-mem (is_candidate accountable (some acting)) m p) q

  -- Somebody acts exactly when they are the accountable person, or the table holds a delegation
  -- that covers the action, the record and the day.
  pub resolve_actor-permitted_iff :
      ((resolve_actor table accountable action acting doctype name today).permitted ≡ true) ↔ (
        (acting ≡ accountable)
        ⊎ ((d : Delegation) × Memᴰ d table × Covers accountable action acting doctype name today d))
  unfolding resolve_actor find_delegations
  resolve_actor-permitted_iff = elim (Bool-cases (acting == accountable)) [
    | inl self ↦ (λ h. inl ((==_iff _ _).0 self), λ h. rw self)
    | inr other ↦ rw other (
      λ h.
          let (d, m) = among-permitted acting action accountable found h in
          inr (d, (found-Covers m).0, (found-Covers m).1),
      λ h. elim h [
        | inl e ↦ absurd (ground arith)
        | inr (d, m, c) ↦ mem-among acting action accountable (Covers-found m c)
      ],
    )
  ]

  -- The delegation that is recorded on the artefact is one that covers the act.
  resolve_actor-delegation :
      {n : ℕ}
      → (resolve_actor table accountable action acting doctype name today).delegation ≡ some n
      → (d : Delegation) × Memᴰ d table
        × Covers accountable action acting doctype name today d
        × (d.name ≡ n)
  unfolding resolve_actor find_delegations
  resolve_actor-delegation h = elim (Bool-cases (acting == accountable)) [
    | inl self ↦ absurd (ground arith)
    | inr other ↦
        let (d, m, e) = among-delegation acting action accountable found (rw other at h) in
        (d, (found-Covers m).0, (found-Covers m).1, e)
  ]

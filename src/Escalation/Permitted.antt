-- ===== src/Escalation/Permitted.antt =====
-- When a move is permitted, without the search for the most specific rules.
use enterprise_management.Base.{
  ℕ, ◌≤◌, ◌≡◌, refl, sym, ◌∙◌, subst, ◌↔◌, ◌⊎◌, inl, inr, Option, none, some, Bool, true, false,
  ◌&&◌, ◌||◌, List, [], ◌∷◌, Memᴰ, arith, filter, mem-filter, filter-mem, any-mem, mem-any,
  not-false, refuse_if, Refusal, Bool-cases, ==_iff, ◌==◌, ok, &&_parts,
}
use enterprise_management.Escalation.{
  Rule, Matter, Save, specificity, active_rules, is_matching, best_of, greater, applicable_rules,
  holds_role, allows_move, permits, permits_among, validate_move, validate_status_change,
}

greater-le : (a b : ℕ) → (a ≤ greater a b) × (b ≤ greater a b)
greater-le a b = ground arith

greater-zero : (a : ℕ) → greater a 0 ≡ a
greater-zero a = ground arith

greater-cases : (a b : ℕ) → (greater a b ≡ a) ⊎ (greater a b ≡ b)
greater-cases a b = ground arith

module _ (rules : List Rule) (m : Matter) where
  -- An active rule for the matter's type and severity.
  abbrev pub Matches : Rule → Type 0
  Matches r = Memᴰ r rules × (r.active ≡ true) × (is_matching m r ≡ true)

  -- No rule that matches is more specific.
  pub record Governs (r : Rule) : Type 0 where
    pub matches : Matches r
    pub narrowest : (other : Rule) → Matches other → specificity other ≤ specificity r

  matching : List Rule
  matching = filter (is_matching m) (active_rules rules)

  matching-Matches : (r : Rule) → Memᴰ r matching → Matches r
  unfolding matching active_rules
  matching-Matches r h =
      let (kept, fits) = mem-filter (is_matching m) (filter (λ (r : Rule). r.active) rules) h in
      let (row, live) = mem-filter (λ (r : Rule). r.active) rules kept in (row, live, fits)

  Matches-matching : (r : Rule) → Matches r → Memᴰ r matching
  unfolding matching active_rules
  Matches-matching r (row, live, fits) =
      filter-mem (is_matching m) (filter-mem (λ (r : Rule). r.active) row live) fits

  best_of-max : (xs : List Rule) {r : Rule} → Memᴰ r xs → specificity r ≤ best_of xs
  best_of-max [] h = elim h [ ]
  best_of-max (x ∷ xs) (Memᴰ.head e) = rw e (greater-le (specificity x) (best_of xs)).0
  best_of-max (x ∷ xs) (Memᴰ.tail h) =
      let rest = best_of-max xs h in
      let bound = (greater-le (specificity x) (best_of xs)).1 in omega arith

  best_of-reached :
      (x : Rule) (xs : List Rule)
      → (r : Rule) × Memᴰ r (x ∷ xs) × (specificity r ≡ best_of (x ∷ xs))
  best_of-reached x [] = (x, Memᴰ.head refl, sym (greater-zero (specificity x)))
  best_of-reached x (y ∷ xs) =
      let (r, h, e) = best_of-reached y xs in
      elim (greater-cases (specificity x) (best_of (y ∷ xs))) [
        | inl first ↦ (x, Memᴰ.head refl, sym first)
        | inr second ↦ (r, Memᴰ.tail h, e ∙ sym second)
      ]

  best_of-least :
      (xs : List Rule) (r : Rule)
      → Memᴰ r xs
      → ((x : Rule) → Memᴰ x xs → specificity x ≤ specificity r)
      → specificity r ≡ best_of xs
  best_of-least [] r h top = elim h [ ]
  best_of-least (y ∷ xs) r h top =
      let (z, k, e) = best_of-reached y xs in
      let below = top z k in let above = best_of-max (y ∷ xs) h in omega arith

  -- The rules that apply are the narrowest of those that match.
  applicable-Governs : (r : Rule) → Memᴰ r (applicable_rules rules m) → Governs r
  unfolding applicable_rules matching
  applicable-Governs r h =
      let (row, best) = mem-filter (λ (r : Rule). specificity r == best_of matching) matching h in
      let top = (==_iff (specificity r) (best_of matching)).0 best in
      record {
        matches = matching-Matches r row;
        narrowest = λ x fits.
            subst (λ (n : ℕ). specificity x ≤ n) (sym top)
              (best_of-max matching (Matches-matching x fits));
      }

  Governs-applicable : (r : Rule) → Governs r → Memᴰ r (applicable_rules rules m)
  unfolding applicable_rules matching
  Governs-applicable r g =
      let row = Matches-matching r g.matches in
      let top = best_of-least matching r row (λ x h. g.narrowest x (matching-Matches x h)) in
      filter-mem (λ (r : Rule). specificity r == best_of matching) row
        ((==_iff (specificity r) (best_of matching)).1 top)

  -- No rule matches, or one of the narrowest that match allows the move and its role is held.
  abbrev pub IsPermitted : ℕ → ℕ → List ℕ → Type 0
  IsPermitted before after roles =
      ((r : Rule) → Matches r → ⊥)
      ⊎ ((r : Rule) × Governs r
          × (allows_move before after r ≡ true)
          × (holds_role r.allowed_role roles ≡ true))

  permitted-among :
      (xs : List Rule) (before after : ℕ) (roles : List ℕ)
      → (permits_among xs before after roles ≡ true) ↔ (
          ((r : Rule) → Memᴰ r xs → ⊥)
          ⊎ ((r : Rule) × Memᴰ r xs
              × (allows_move before after r ≡ true)
              × (holds_role r.allowed_role roles ≡ true)))
  permitted-among [] before after roles = (λ h. inl (λ r h. elim h [ ]), λ h. refl)
  permitted-among (x ∷ xs) before after roles =
      let p : Rule → Bool = λ r. allows_move before after r && holds_role r.allowed_role roles in
      (
        λ h.
            (let (r, k, both) = any-mem p (x ∷ xs) h in
              let (move, role) = &&_parts _ _ both in inr (r, k, move, role)),
        λ h. elim h [
          | inl empty ↦ absurd (empty x (Memᴰ.head refl))
          | inr (r, k, move, role) ↦ mem-any p k (ground arith)
        ],
      )

  -- Where a rule matches, one governs.
  nothing-Matches :
      ((r : Rule) → Memᴰ r (applicable_rules rules m) → ⊥) → (r : Rule) → Matches r → ⊥
  nothing-Matches empty r fits = none_in matching (Matches-matching r fits) refl
    where
      none_in : (xs : List Rule) → Memᴰ r xs → xs ≡ matching → ⊥
      none_in [] h e = elim h [ ]
      none_in (y ∷ ys) h e =
          let (z, k, top) = best_of-reached y ys in
          let row : Memᴰ z matching = subst (λ (l : List Rule). Memᴰ z l) e k in
          empty z (
            Governs-applicable z (record {
              matches = matching-Matches z row;
              narrowest = λ x fits. rw top (
                  best_of-max (y ∷ ys)
                    (subst (λ (l : List Rule). Memᴰ x l) (sym e) (Matches-matching x fits)));
            }))

  permits-IsPermitted :
      (before after : ℕ) (roles : List ℕ)
      → (permits rules m after roles (some before) ≡ true) ↔ IsPermitted before after roles
  unfolding permits
  permits-IsPermitted before after roles =
      let both = permitted-among (applicable_rules rules m) before after roles in
      (
        λ h. elim (both.0 h) [
          | inl empty ↦ inl (nothing-Matches empty)
          | inr (r, k, move, role) ↦ inr (r, applicable-Governs r k, move, role)
        ],
        λ h. both.1 (elim h [
          | inl free ↦ inl (λ r k. free r (applicable-Governs r k).matches)
          | inr (r, g, move, role) ↦ inr (r, Governs-applicable r g, move, role)
        ]),
      )

  refuse_if-passed : (t : Bool) (r : Refusal) → refuse_if t r ≡ ok tt → t ≡ false
  refuse_if-passed true r h = cc
  refuse_if-passed false r h = refl

  move-accepted :
      (earlier : Option ℕ) (roles : List ℕ)
      → ((before : ℕ)
          → earlier ≡ some before
          → (before == m.status) ≡ false
          → IsPermitted before m.status roles)
      → validate_move rules m earlier roles ≡ ok tt
  unfolding validate_move
  move-accepted none roles h = refl
  move-accepted (some before) roles h = elim (Bool-cases (before == m.status)) [
    | inl stays ↦ rw stays refl
    | inr moves ↦
        rw (moves, (permits-IsPermitted before m.status roles).1 (h before refl moves)) refl
  ]

  abbrev pub IsChange : Save → ℕ → Type 0
  IsChange s before =
      (s.is_new ≡ false)
      × (s.ignore_permissions ≡ false)
      × (s.before ≡ some before)
      × ((before == m.status) ≡ false)

  -- A save by a person is accepted exactly when every change of status that it makes is permitted: no
  -- active rule matches the matter's type and severity, or one than which no matching rule is more
  -- specific allows the move, for a role that the person holds.
  pub validate_status_change-IsPermitted :
      (s : Save) (roles : List ℕ)
      → (validate_status_change rules m s roles ≡ ok tt)
        ↔ ((before : ℕ) → IsChange s before → IsPermitted before m.status roles)
  unfolding validate_status_change
  validate_status_change-IsPermitted s roles = (
    λ h before (new, asked, earlier, moved).
        (permits-IsPermitted before m.status roles).0
          (not-false _ (refuse_if-passed _ _ (rw (new, asked, earlier, moved) at h))),
    λ h. elim (Bool-cases (s.is_new || s.ignore_permissions)) [
      | inl skip ↦ rw skip refl
      | inr person ↦ rw person (
          move-accepted s.before roles
            (λ before earlier moved. h before (ground arith, ground arith, earlier, moved)))
    ],
  )

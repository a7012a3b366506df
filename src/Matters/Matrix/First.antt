-- ===== src/Matters/Matrix/First.antt =====
-- Which rule `match_rule` gives, said without the order of the loops.
use enterprise_management.Base.{
  filter-Sorted, if-true, if-false, ◌∙◌, ℕ, ◌≡◌, ◌≤◌, refl, sym, ap, subst, inl, inr, Option, none,
  some, true, List, [], ◌∷◌, Memᴰ, filter, arith, if◌then◌else◌, Bool-cases, Sorted, sort_by,
  sort_by-mem, mem-sort_by, sort_by-Sorted, uncons, mem-filter, filter-mem, ok, >>=-eq-ok,
  ok-injective,
}
use enterprise_management.Matters.{EscalationMatter}
use enterprise_management.Matters.Matrix.{
  Matrix, MatrixRule, Match, latest_first, is_effective, active_matrices, matrix_in_scope,
  condition_matches, by_priority, first_rule, first_match, matched, match_of, match_rule,
}

module _ (int_of : ℕ → Option ℕ) (m : EscalationMatter) where
  -- A rule in use whose condition holds of the matter.
  pub record Applies (r : MatrixRule) : Type 0 where
    pub in_use : r.active ≡ true
    pub holds : condition_matches int_of r.condition m ≡ ok true

  -- A rule of least priority number among those of its list that apply.
  pub record IsBest (rules : List MatrixRule) (r : MatrixRule) : Type 0 where
    pub listed : Memᴰ r rules
    pub applies : Applies r
    pub least : (r' : MatrixRule) → Memᴰ r' rules → Applies r' → r.priority ≤ r'.priority

  abbrev NoneApplies : List MatrixRule → Type 0
  NoneApplies rules = (r' : MatrixRule) → Memᴰ r' rules → Applies r' → ⊥

  abbrev Chosen : List MatrixRule → Option MatrixRule → Type 0
  Chosen rules none = NoneApplies rules
  Chosen rules (some r) = IsBest rules r

  passed_over :
      (q : MatrixRule) (rules : List MatrixRule) (o : Option MatrixRule)
      → (Applies q → ⊥)
      → Chosen rules o
      → Chosen (q ∷ rules) o
  passed_over q rules none never chosen = λ r' mem a. elim (uncons mem) [
    | inl e ↦ never (subst (λ (z : MatrixRule). Applies z) e a)
    | inr later ↦ chosen r' later a
  ]
  passed_over q rules (some r) never best = record {
    listed = Memᴰ.tail best.listed;
    applies = best.applies;
    least = λ r' mem a. elim (uncons mem) [
      | inl e ↦ absurd (never (subst (λ (z : MatrixRule). Applies z) e a))
      | inr later ↦ best.least r' later a
    ];
  }

  first-IsBest :
      (q : MatrixRule) (rules : List MatrixRule)
      → ((y : MatrixRule) → Memᴰ y rules → by_priority q y ≡ true)
      → Applies q
      → IsBest (q ∷ rules) q
  first-IsBest q rules below a = record {
    listed = Memᴰ.head refl;
    applies = a;
    least = λ r' mem a'. elim (uncons mem) [
      | inl e ↦ let s = ap (λ (z : MatrixRule). z.priority) e in omega arith
      | inr later ↦ ground (arith, below r' later)
    ];
  }

  first_rule-Chosen :
      (rules : List MatrixRule) {o : Option MatrixRule}
      → Sorted by_priority rules
      → first_rule int_of rules m ≡ ok o
      → Chosen rules o
  unfolding first_rule
  first_rule-Chosen [] {o} sorted h =
      subst (λ (z : Option MatrixRule). Chosen [] z) (ok-injective h) (λ r' mem a. elim mem [ ])
  first_rule-Chosen (q ∷ rules) {o} (below, sorted) h = elim (Bool-cases q.active) [
    | inr unused ↦
        passed_over q rules o (λ a. cc (a.in_use))
          (first_rule-Chosen rules sorted (sym (if-false _ _ unused) ∙ h))
    | inl used ↦
        let (holds, e, rest) =
          >>=-eq-ok (condition_matches int_of q.condition m)
            (λ holds. if holds then ok (some q) else first_rule int_of rules m)
            (sym (if-true _ _ used) ∙ h) in
        elim (Bool-cases holds) [
          | inl yes_ ↦
              subst (λ (z : Option MatrixRule). Chosen (q ∷ rules) z)
                (ok-injective (rw yes_ at rest))
                (first-IsBest q rules below (record { in_use = used; holds = rw yes_ at e }))
          | inr no_ ↦
              passed_over q rules o (λ a. let h' = a.holds in cc)
                (first_rule-Chosen rules sorted (rw no_ at rest))
        ]
  ]

  abbrev IsInScope : Matrix → Type 0
  IsInScope x = matrix_in_scope x m ≡ true

  -- What the loop over the matrices finds among those of a list.
  abbrev Found : List Matrix → Option (Matrix × MatrixRule) → Type 0
  Found xs none = (x : Matrix) → Memᴰ x xs → IsInScope x → NoneApplies x.rules
  Found xs (some (x, r)) =
      Memᴰ x xs
      × IsInScope x
      × IsBest x.rules r
      × ((x' : Matrix)
          → Memᴰ x' xs
          → IsInScope x'
          → (r' : MatrixRule) → Memᴰ r' x'.rules
          → Applies r'
          → x'.effective_from ≤ x.effective_from)

  skipped :
      (x : Matrix) (xs : List Matrix) (o : Option (Matrix × MatrixRule))
      → (IsInScope x → NoneApplies x.rules)
      → Found xs o
      → Found (x ∷ xs) o
  skipped x xs none never found = λ x' mem scope. elim (uncons mem) [
    | inl e ↦ rw e (never (rw e at scope))
    | inr later ↦ found x' later scope
  ]
  skipped x xs (some (y, r)) never (listed, in_scope, best, latest) = (
    Memᴰ.tail listed,
    in_scope,
    best,
    λ x' mem scope r' of_x a. elim (uncons mem) [
      | inl e ↦
          absurd
            (never (subst IsInScope e scope) r' (subst (λ (z : Matrix). Memᴰ r' z.rules) e of_x) a)
      | inr later ↦ latest x' later scope r' of_x a
    ],
  )

  taken :
      (x : Matrix) (xs : List Matrix) (r : MatrixRule)
      → ((y : Matrix) → Memᴰ y xs → latest_first x y ≡ true)
      → IsInScope x
      → IsBest x.rules r
      → Found (x ∷ xs) (some (x, r))
  taken x xs r below scope best = (
    Memᴰ.head refl,
    scope,
    best,
    λ x' mem scope' r' of_x a. elim (uncons mem) [
      | inl e ↦ let s = ap (λ (z : Matrix). z.effective_from) e in omega arith
      | inr later ↦ ground (arith, below x' later)
    ],
  )

  Sorted-rules : (rules : List MatrixRule) → Sorted by_priority (sort_by by_priority rules)
  Sorted-rules rules =
      sort_by-Sorted by_priority (λ a b h. ground arith) (λ a b c h k. ground arith) rules

  NoneApplies-sorted :
      (rules : List MatrixRule) → NoneApplies (sort_by by_priority rules) → NoneApplies rules
  NoneApplies-sorted rules none_ r' mem a = none_ r' (sort_by-mem by_priority mem) a

  IsBest-sorted :
      (rules : List MatrixRule) (r : MatrixRule)
      → IsBest (sort_by by_priority rules) r
      → IsBest rules r
  IsBest-sorted rules r best = record {
    listed = mem-sort_by by_priority rules best.listed;
    applies = best.applies;
    least = λ r' mem a. best.least r' (sort_by-mem by_priority mem) a;
  }

  after_rules :
      (x : Matrix) (xs : List Matrix) {o : Option (Matrix × MatrixRule)}
      → ((y : Matrix) → Memᴰ y xs → latest_first x y ≡ true)
      → IsInScope x
      → (found : Option MatrixRule) → Chosen (sort_by by_priority x.rules) found
      → (elim found [ none ↦ first_match int_of xs m | some r ↦ ok (some (x, r)) ]) ≡ ok o
      → (first_match int_of xs m ≡ ok o → Found xs o)
      → Found (x ∷ xs) o
  after_rules x xs {o} below inside none chosen rest later =
      skipped x xs o (λ scope. NoneApplies-sorted x.rules chosen) (later rest)
  after_rules x xs {o} below inside (some r) chosen rest later =
      subst (λ (z : Option (Matrix × MatrixRule)). Found (x ∷ xs) z) (ok-injective rest)
        (taken x xs r below inside (IsBest-sorted x.rules r chosen))

  first_match-Found :
      (xs : List Matrix) {o : Option (Matrix × MatrixRule)}
      → Sorted latest_first xs
      → first_match int_of xs m ≡ ok o
      → Found xs o
  unfolding first_match
  first_match-Found [] {o} sorted h =
      subst (λ (z : Option (Matrix × MatrixRule)). Found [] z) (ok-injective h)
        (λ x mem. elim mem [ ])
  first_match-Found (x ∷ xs) {o} (below, sorted) h = elim (Bool-cases (matrix_in_scope x m)) [
    | inr outside ↦
        skipped x xs o (λ scope. cc) (first_match-Found xs sorted (sym (if-false _ _ outside) ∙ h))
    | inl inside ↦
        let (found, e, rest) =
          >>=-eq-ok (first_rule int_of (sort_by by_priority x.rules) m) _
            (sym (if-true _ _ inside) ∙ h) in
        let chosen = first_rule-Chosen (sort_by by_priority x.rules) (Sorted-rules x.rules) e in
        after_rules x xs below inside found chosen rest (first_match-Found xs sorted)
  ]

-- A matrix that `active_matrices` keeps.
pub record IsLive (matrices : List Matrix) (as_of : ℕ) (x : Matrix) : Type 0 where
  pub listed : Memᴰ x matrices
  pub in_use : x.active ≡ true
  pub effective : is_effective as_of x ≡ true

-- A rule that may fire for the matter.
pub record Reaches (int_of : ℕ → Option ℕ) (matrices : List Matrix) (as_of : ℕ)
    (m : EscalationMatter) (x : Matrix) (r : MatrixRule) : Type 0 where
  pub live : IsLive matrices as_of x
  pub in_scope : matrix_in_scope x m ≡ true
  pub listed : Memᴰ r x.rules
  pub applies : Applies int_of m r

-- The rule that fires: no other that may fire is of a matrix that took effect later, or of the same
-- matrix with a smaller priority number.
pub record Fires (int_of : ℕ → Option ℕ) (matrices : List Matrix) (as_of : ℕ) (m : EscalationMatter)
    (found : Match) : Type 0 where
  pub matrix : Matrix
  pub rule : MatrixRule
  pub reaches : Reaches int_of matrices as_of m matrix rule
  pub least :
      (r : MatrixRule) → Memᴰ r matrix.rules → Applies int_of m r → rule.priority ≤ r.priority
  pub latest :
      (x : Matrix) (r : MatrixRule)
      → Reaches int_of matrices as_of m x r
      → x.effective_from ≤ matrix.effective_from
  pub given_as : found ≡ matched matrix rule

module _ (matrices : List Matrix) (as_of : ℕ) where
  active_matrices-IsLive :
      (x : Matrix) → Memᴰ x (active_matrices matrices as_of) → IsLive matrices as_of x
  unfolding active_matrices
  active_matrices-IsLive x mem =
      let (in_sorted, e) = mem-filter (is_effective as_of) _ mem in
      let (listed, used) =
        mem-filter (λ (x : Matrix). x.active) matrices (mem-sort_by latest_first _ in_sorted) in
      record { listed = listed; in_use = used; effective = e }

  IsLive-active_matrices :
      (x : Matrix) → IsLive matrices as_of x → Memᴰ x (active_matrices matrices as_of)
  unfolding active_matrices
  IsLive-active_matrices x live =
      filter-mem (is_effective as_of)
        (sort_by-mem latest_first (filter-mem (λ (x : Matrix). x.active) live.listed live.in_use))
        live.effective

  active_matrices-Sorted : Sorted latest_first (active_matrices matrices as_of)
  unfolding active_matrices
  active_matrices-Sorted = filter-Sorted latest_first (is_effective as_of) _ (
      sort_by-Sorted latest_first (λ a b h. ground arith) (λ a b c h k. ground arith)
        (filter (λ x. x.active) matrices))

module _ (int_of : ℕ → Option ℕ) (matrices : List Matrix) (as_of : ℕ) (m : EscalationMatter) where
  abbrev Decided : Option Match → Type 0
  Decided none = (x : Matrix) (r : MatrixRule) → Reaches int_of matrices as_of m x r → ⊥
  Decided (some found) = Fires int_of matrices as_of m found

  decided :
      (o : Option (Matrix × MatrixRule))
      → Found int_of m (active_matrices matrices as_of) o
      → Decided (match_of o)
  decided none none_ = λ x r reaches.
      none_ x (IsLive-active_matrices matrices as_of x reaches.live) reaches.in_scope r
        reaches.listed reaches.applies
  decided (some (x, r)) (listed, in_scope, best, latest) = record {
    matrix = x;
    rule = r;
    reaches = record {
      live = active_matrices-IsLive matrices as_of x listed;
      in_scope = in_scope;
      listed = best.listed;
      applies = best.applies;
    };
    least = best.least;
    latest = λ x' r' reaches.
        latest x' (IsLive-active_matrices matrices as_of x' reaches.live) reaches.in_scope r'
          reaches.listed reaches.applies;
    given_as = refl;
  }

  decided_by : (o : Option Match) → match_rule int_of matrices as_of m ≡ ok o → Decided o
  unfolding match_rule
  decided_by o h =
      let (found, e, last) =
        >>=-eq-ok (first_match int_of (active_matrices matrices as_of) m) _ h in
      subst (λ (z : Option Match). Decided z) (ok-injective last)
        (decided found (
          first_match-Found int_of m (active_matrices matrices as_of)
            (active_matrices-Sorted matrices as_of) e))

  -- When the conditions can be evaluated, a rule fires exactly when some rule in use of a matrix in
  -- effect and in scope holds of the matter, and it is then one of a matrix of the latest effective
  -- date, and of the least priority number in that matrix.
  pub match_rule-Fires :
      (o : Option Match)
      → match_rule int_of matrices as_of m ≡ ok o
      → ((found : Match) → o ≡ some found → Fires int_of matrices as_of m found)
        × (o ≡ none → (x : Matrix) (r : MatrixRule) → Reaches int_of matrices as_of m x r → ⊥)
  match_rule-Fires o h = (
    λ found e. subst (λ (z : Option Match). Decided z) e (decided_by o h),
    λ e. subst (λ (z : Option Match). Decided z) e (decided_by o h),
  )

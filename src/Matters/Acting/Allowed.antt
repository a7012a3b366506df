-- ===== src/Matters/Acting/Allowed.antt =====
-- Who may take an action on a matter, and when, said without the order of the checks.
use enterprise_management.Base.{
  ◌↔◌, ℕ, ◌≡◌, ◌≢◌, refl, ap, inl, inr, ◌⊎◌, Option, some, Bool, true, false, not, ◌&&◌, List, Memᴰ,
  any, any-mem, mem-any, contains, contains-mem, mem-contains, same, same→eq, same_refl, not-false,
  arith, Bool-cases, ok, throw_if, refuse_if-eq-ok, not_at_this_stage,
}
use enterprise_management.Escalation.{superuser_roles}
use enterprise_management.Matters.{EscalationMatter}
use enterprise_management.Matters.Site.{Site, may_write}
use enterprise_management.Matters.Acting.{
  Action, offers, stage_of, roles_for, is_independent, is_accountable, holds_any, may_take,
  action_refusal, authorise,
}

-- What a user needs for an action on a matter.
pub record IsAllowed (site : Site) (m : EscalationMatter) (a : Action) (user : ℕ) : Type 0 where
  pub offered : offers (stage_of m) a ≡ true
  pub writable : site.has_permission user may_write m ≡ true
  pub independent :
      is_independent a ≡ true
      → (m.accountable_executive ≢ some user) × (m.response_owner ≢ some user)
  pub standing :
      (role : ℕ) × (Memᴰ role (roles_for m a) ⊎ Memᴰ role superuser_roles)
      × Memᴰ role (site.get_roles user)

holds_any-role :
    (held roles : List ℕ)
    → holds_any held roles ≡ true
    → (role : ℕ) × (Memᴰ role roles ⊎ Memᴰ role superuser_roles) × Memᴰ role held
holds_any-role held roles h = elim (Bool-cases (any (contains held) roles)) [
  | inl e ↦
      let (role, listed, has) = any-mem (contains held) roles e in
      (role, inl listed, contains-mem held role has)
  | inr e ↦
      let (role, listed, has) = any-mem (contains held) superuser_roles (rw e at h) in
      (role, inr listed, contains-mem held role has)
]

role-holds_any :
    (held roles : List ℕ) (role : ℕ)
    → Memᴰ role roles ⊎ Memᴰ role superuser_roles
    → Memᴰ role held
    → holds_any held roles ≡ true
role-holds_any held roles role (inl listed) has =
    rw (mem-any (contains held) listed (mem-contains held role has)) refl
role-holds_any held roles role (inr listed) has = elim (Bool-cases (any (contains held) roles)) [
  | inl e ↦ rw e refl
  | inr e ↦ rw e (mem-any (contains held) listed (mem-contains held role has))
]

module _ (site : Site) (m : EscalationMatter) (a : Action) (user : ℕ) where
  apart : (o : Option ℕ) → same o (some user) ≡ false → o ≢ some user
  apart o e q =
      let r = same_refl (some user) in let s = ap (λ (z : Option ℕ). same z (some user)) q in cc

  unaccountable :
      is_accountable m user ≡ false
      → (m.accountable_executive ≢ some user) × (m.response_owner ≢ some user)
  unaccountable h =
      (apart m.accountable_executive (ground arith), apart m.response_owner (ground arith))

  accountable_false :
      (m.accountable_executive ≢ some user) × (m.response_owner ≢ some user)
      → is_accountable m user ≡ false
  accountable_false (first, second) = elim (Bool-cases (same m.accountable_executive (some user))) [
    | inl e ↦ absurd (first (same→eq _ _ e))
    | inr e ↦ elim (Bool-cases (same m.response_owner (some user))) [
      | inl e' ↦ absurd (second (same→eq _ _ e'))
      | inr e' ↦ rw (e, e') refl
    ]
  ]

  may_take-parts :
      may_take site m a user ≡ true
      → ((is_independent a && is_accountable m user) ≡ false)
        × (holds_any (site.get_roles user) (roles_for m a) ≡ true)
        × (site.has_permission user may_write m ≡ true)
  unfolding may_take
  may_take-parts h =
      parts (is_independent a && is_accountable m user)
        (holds_any (site.get_roles user) (roles_for m a)) (site.has_permission user may_write m) h
    where
      parts : (x y z : Bool) → (not x && y && z) ≡ true → (x ≡ false) × (y ≡ true) × (z ≡ true)
      parts x y z h = ground arith

  both_no : (x y : Bool) → (x && y) ≡ false → x ≡ true → y ≡ false
  both_no x y h e = ground arith

  authorise-passes :
      authorise site m a user ≡ ok tt
      → (may_take site m a user ≡ true) × (offers (stage_of m) a ≡ true)
  unfolding authorise
  authorise-passes h =
      let (t, h1) = refuse_if-eq-ok (not (may_take site m a user)) (action_refusal site m) _ h in
      (not-false _ t, quiet (offers (stage_of m) a) h1)
    where
      quiet : (b : Bool) → throw_if (not b) not_at_this_stage ≡ ok tt → b ≡ true
      quiet b h = ground arith

  -- An action is authorised exactly when the stage of the matter offers it, the user may write the
  -- matter and holds a role that carries the action at that stage, or the superuser's, and, for a
  -- review, is neither the accountable executive nor the response owner.
  pub authorise-IsAllowed : (authorise site m a user ≡ ok tt) ↔ IsAllowed site m a user
  unfolding authorise may_take
  authorise-IsAllowed = (λ h. to h, λ i. from i)
    where
      to : authorise site m a user ≡ ok tt → IsAllowed site m a user
      to h =
          let (t, offered) = authorise-passes h in
          let (first, held, writable) = may_take-parts t in
          record {
            offered = offered;
            writable = writable;
            independent = λ i. unaccountable (both_no (is_independent a) _ first i);
            standing = holds_any-role (site.get_roles user) (roles_for m a) held;
          }

      from : IsAllowed site m a user → authorise site m a user ≡ ok tt
      from i =
          let (role, listed, has) = i.standing in
          let held = role-holds_any (site.get_roles user) (roles_for m a) role listed has in
          elim (Bool-cases (is_independent a)) [
            | inl e ↦ rw (e, accountable_false (i.independent e), held, i.writable, i.offered) refl
            | inr e ↦ rw (e, held, i.writable, i.offered) refl
          ]

-- ===== src/Delegation/Tests.antt =====
-- Runs of the delegation functions, and the theorems at concrete tables.
use enterprise_management.Base.{
  ℕ, ◌≡◌, refl, ◌⊎◌, ◌↔◌, none, some, true, false, List, [], ◌∷◌, Memᴰ, arith, err, thrown,
  different_people,
}
use enterprise_management.Delegation.{
  Delegation, by_doctype, action_approve, is_within_dates, covers_scope, find_delegations,
  resolve_actor, refresh_all, refresh_active_flag, validate, is_candidate, is_live_for,
}
use enterprise_management.Delegation.Cover.{Covers, resolve_actor-permitted_iff}

-- User 20 approves for user 10 on records of DocType 7, on days 100 to 200.
abbrev standing : Delegation
standing = record {
  name = 1;
  delegator = 10;
  delegate = 20;
  valid_from = some 100;
  valid_to = some 200;
  is_active = true;
  scope_type = by_doctype;
  scope_doctype = some 7;
  scope_record = none;
  delegated_actions = action_approve ∷ [];
}

abbrev expired : Delegation
expired = record standing { name = 2; valid_to = some 120; is_active = true }

abbrev table : List Delegation
table = expired ∷ standing ∷ []

program : Unit {0}
unfolding is_within_dates covers_scope find_delegations resolve_actor refresh_all validate
    is_candidate is_live_for refresh_active_flag
program = tt

resolves : (resolve_actor table 10 action_approve 20 (some 7) (some 5) 150).delegation ≡ some 1
unfolding program
resolves = refl

refused_elsewhere :
    (resolve_actor table 10 action_approve 20 (some 8) (some 5) 150).permitted ≡ false
unfolding program
refused_elsewhere = refl

swept : (refresh_all table 150).1 ≡ 1
unfolding program
swept = refl

own_delegate : validate (record standing { delegate = 10 }) 150 ≡ err (thrown different_people)
unfolding program
own_delegate = refl

standing-Covers : Covers 10 action_approve 20 (some 7) (some 5) 150 standing
standing-Covers = record {
  from_accountable = refl;
  to_acting = refl;
  active = refl;
  started = omega arith;
  not_over = omega arith;
  names_action = Memᴰ.head refl;
  in_scope = refl;
}

resolve_actor-permitted_iff_example :
    ((resolve_actor table 10 action_approve 20 (some 7) (some 5) 150).permitted ≡ true) ↔ (
      (◌≡◌ {A = ℕ} 20 10)
      ⊎ ((d : Delegation) × Memᴰ d table × Covers 10 action_approve 20 (some 7) (some 5) 150 d))
resolve_actor-permitted_iff_example =
    resolve_actor-permitted_iff table 10 action_approve 20 (some 7) (some 5) 150

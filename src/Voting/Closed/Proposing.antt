-- ===== src/Voting/Closed/Proposing.antt =====
-- The insertion of a proposed motion, and the rows and flags after it is opened.
use enterprise_management.Base.{
  ok-injective, >>=-eq-ok, ℕ, ◌≡◌, ◌≢◌, refl, sym, ◌∙◌, ap, inl, inr, some, false, [], ◌∷◌, read,
  read-write_other, ok, Bool-cases,
}
use enterprise_management.StateFlags.{ByValue, get_flag_map}
use enterprise_management.Voting.{Motion, Chamber, forum_motion, outcome_field}
use enterprise_management.Voting.Ballots.{opened}
use enterprise_management.Voting.Screen.{insert_motion}
use enterprise_management.Voting.{validate_motion}
use enterprise_management.Voting.Closed.{validate_motion-name}
use enterprise_management.Base.{◌+◌, ◌++◌, is_some}

-- The motion as it is inserted.
pub insert_motion-inv :
    (by_value : ByValue) (c : Chamber) (given : Motion) {d : Chamber} {m : Motion}
    → get_flag_map c.flag_rows forum_motion ≡ (outcome_field, by_value) ∷ []
    → insert_motion c given ≡ ok (d, m)
    → (m.name ≡ given.name)
      × (d ≡ record c { motions = c.motions ++ m ∷ []; next_name = c.next_name + 1 })
unfolding insert_motion
insert_motion-inv by_value c given mapped h =
    let (x, valid, e) = >>=-eq-ok (validate_motion c false given) _ h in
    let named : x.name ≡ given.name = validate_motion-name c by_value mapped false given valid in
    let new = ap (λ p. p.1) (ok-injective e) in
    (
      ap (λ (y : Motion). y.name) (sym new) ∙ named,
      sym (ap (λ p. p.0) (ok-injective e))
          ∙ ap
              (λ (y : Motion). record c {
                motions = c.motions ++ y ∷ [];
                next_name = c.next_name + 1;
              })
              new,
    )

pub opened-read :
    (e : Chamber) (m : Motion) (now k : ℕ)
    → m.name ≢ k
    → read (λ (x : Motion). x.name) k (opened e m now).motions
      ≡ read (λ (x : Motion). x.name) k e.motions
opened-read e m now k ne = elim (Bool-cases (is_some m.opened_on)) [
  | inl t ↦ rw t refl
  | inr t ↦
      rw t (
        read-write_other (λ (x : Motion). x.name) (record m { opened_on = some now }) k e.motions
          ne)
]

pub opened-rest :
    (e : Chamber) (m : Motion) (now : ℕ)
    → ((opened e m now).flag_rows ≡ e.flag_rows) × ((opened e m now).next_name ≡ e.next_name)
opened-rest e m now = elim (Bool-cases (is_some m.opened_on)) [
  | inl t ↦ rw t (refl, refl)
  | inr t ↦ rw t (refl, refl)
]

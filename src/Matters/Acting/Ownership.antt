-- ===== src/Matters/Acting/Ownership.antt =====
-- Two people who take one matter: the row lock lets the second see what the first did.
use enterprise_management.Base.{
  ℕ, ◌≡◌, refl, ap, ◌∙◌, none, some, Bool, true, false, read, read-name, read-write_self, arith, ok,
  err, thrown, already_taken,
}
use enterprise_management.Matters.{EscalationMatter}
use enterprise_management.Matters.Site.{Site, Session}
use enterprise_management.Matters.Queue.{in_queue, is_waiting}
use enterprise_management.Matters.Saving.{World, name_of, matter_named, saving}
use enterprise_management.Matters.Saving.Passed.{entered, own, Passed-own, validate-Passed}
use enterprise_management.Matters.Saving.Stored.{Saved}
use enterprise_management.Matters.Acting.{settle_ownership}
use enterprise_management.Matters.Acting.Steps.{settle_ownership-Taken}

module _ (site : Site) (w : World) (by : Session) (ignore_permissions : Bool)
    (m0 : EscalationMatter) where
  -- The columns that a save does not derive are those that it was given.
  pub Saved-own :
      {w' : World} {m' : EscalationMatter}
      → Saved site w by ignore_permissions m0 w' m'
      → own (record m' { sla_clock = none }) ≡ own (record (entered m0) { sla_clock = none })
  Saved-own s =
      ap (λ (z : EscalationMatter). own (record z { sla_clock = none })) s.update.same
      ∙ ap (λ (z : EscalationMatter). record z { sla_clock = none })
          (Passed-own site w.closures by (saving site w m0 ignore_permissions) m0 s.checked
            (validate-Passed site w.closures by (saving site w m0 ignore_permissions) m0 s.passed))

  -- What was saved in its row is what the table then has.
  pub Saved-stored :
      {w' : World} {m' : EscalationMatter} (n : ℕ) {old : EscalationMatter}
      → matter_named w n ≡ some old
      → m0.name ≡ n
      → Saved site w by ignore_permissions m0 w' m'
      → matter_named w' n ≡ some m'
  Saved-stored {w'} {m'} n {old} e named s =
      ap (read name_of n) s.matters
      ∙ read-write_self name_of m' n w.matters
          (ap (λ (z : EscalationMatter). z.name) (Saved-own s) ∙ named) e

module _ (site : Site) where
  owned_not-waiting :
      (m : EscalationMatter) (user : ℕ)
      → m.response_owner ≡ some user
      → in_queue site m user ≡ true
      → is_waiting site m ≡ false
  unfolding is_waiting
  owned_not-waiting m user owned member = ground arith

  refused_if_owned :
      (w : World) (by : Session) (name : ℕ) (m : EscalationMatter)
      → matter_named w name ≡ some m
      → is_waiting site m ≡ false
      → settle_ownership site w by name ≡ err (thrown already_taken)
  unfolding settle_ownership
  refused_if_owned w by name m e idle = rw (e, idle) refl

  -- When a user takes a matter that waits, the matter has that user as its response owner, and if
  -- the routing of the save left it in a queue of that user, whoever comes next, the same user
  -- included, is told that it is taken.
  pub settle_ownership-Once :
      (w : World) (by next : Session) (name : ℕ) {w' : World} {m' : EscalationMatter}
      → settle_ownership site w by name ≡ ok (w', m')
      → in_queue site m' by.user ≡ true
      → (matter_named w' name ≡ some m')
        × (m'.response_owner ≡ some by.user)
        × (settle_ownership site w' next name ≡ err (thrown already_taken))
  settle_ownership-Once w by next name {w'} {m'} h member =
      let t = settle_ownership-Taken site w by name h in
      let m0 : EscalationMatter = record t.before {
        response_owner = some by.user;
        ownership_taken_on = some by.now;
      } in
      let kept =
        Saved-stored site w by true m0 name t.stored_as
          (read-name name_of name w.matters t.stored_as) t.saved in
      let owned =
        ap (λ (z : EscalationMatter). z.response_owner) (Saved-own site w by true m0 t.saved) in
      (
        kept,
        owned,
        refused_if_owned w' next name m' kept (owned_not-waiting m' by.user owned member),
      )

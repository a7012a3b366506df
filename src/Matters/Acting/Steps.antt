-- ===== src/Matters/Acting/Steps.antt =====
-- What each action has checked when it succeeds, and the save that it ends in.
use enterprise_management.Base.{
  ℕ, ◌≡◌, subst, some, Bool, true, not, Memᴰ, contains, contains-mem, not-false, demand, thrown,
  demand-eq-ok, ok, >>=-eq-ok, >>-eq-ok, throw_if-eq-ok, refuse_if-eq-ok, ok-injective,
  not_available, not_a_move, not_a_closure, no_closure, record_missing, already_taken,
}
use enterprise_management.Matters.{EscalationMatter}
use enterprise_management.Matters.Site.{Site, Session, may_read, may_write}
use enterprise_management.Matters.Queue.{is_waiting}
use enterprise_management.Matters.Saving.{World, Closure, matter_named, closure_of, save}
use enterprise_management.Matters.Saving.Stored.{Saved, save-Saved}
use enterprise_management.Matters.Acting.{
  move_status, close, load_matter, authorise, open_states, closing_states, allows, refuse_move,
  closing, approve, move_matter_status, close_matter, settle_ownership,
}

module _ (site : Site) (w : World) (by : Session) (name : ℕ) where
  -- A matter that the caller may change.
  pub record Loaded (m : EscalationMatter) : Type 0 where
    pub stored_as : matter_named w name ≡ some m
    pub readable : site.has_permission by.user may_read m ≡ true
    pub writable : site.has_permission by.user may_write m ≡ true

  pub load_matter-Loaded :
      {m : EscalationMatter} → load_matter site w name by.user ≡ ok m → Loaded m
  unfolding load_matter
  load_matter-Loaded {m} h =
      let (m', e, h1) = >>=-eq-ok (demand (matter_named w name) (thrown not_available)) _ h in
      let (r, h2) =
        throw_if-eq-ok (not (site.has_permission by.user may_read m')) not_available _ h1 in
      let (t, h3) =
        throw_if-eq-ok (not (site.has_permission by.user may_write m')) not_available _ h2 in
      subst (λ (z : EscalationMatter). Loaded z) (ok-injective h3)
        (record {
          stored_as = demand-eq-ok _ _ e;
          readable = not-false _ r;
          writable = not-false _ t;
        })

  pub record Moved (status : ℕ) (w' : World) (m' : EscalationMatter) : Type 0 where
    pub before : EscalationMatter
    pub loaded : Loaded before
    pub authorised : authorise site before move_status by.user ≡ ok tt
    pub listed : Memᴰ status (open_states site before)
    pub allowed : allows site before status by.user ≡ true
    pub saved : Saved site w by true (record before { status = status }) w' m'

  pub move_matter_status-Moved :
      (status : ℕ) {w' : World} {m' : EscalationMatter}
      → move_matter_status site w by name status ≡ ok (w', m')
      → Moved status w' m'
  unfolding move_matter_status
  move_matter_status-Moved status h =
      let (m, e, h1) = >>=-eq-ok (load_matter site w name by.user) _ h in
      let (authorised, h2) = >>-eq-ok (authorise site m move_status by.user) _ h1 in
      let (listed, h3) =
        throw_if-eq-ok (not (contains (open_states site m) status)) not_a_move _ h2 in
      let (allowed, h4) =
        refuse_if-eq-ok (not (allows site m status by.user)) (refuse_move site m) _ h3 in
      record {
        before = m;
        loaded = load_matter-Loaded e;
        authorised = authorised;
        listed = contains-mem (open_states site m) status (not-false _ listed);
        allowed = not-false _ allowed;
        saved = save-Saved site w by true (record m { status = status }) h4;
      }

  pub record Closed (status : ℕ) (completed : Bool) (w'' : World) (m' : EscalationMatter)
      : Type 0 where
    pub before : EscalationMatter
    pub closure : Closure
    pub between : World
    pub loaded : Loaded before
    pub authorised : authorise site before close by.user ≡ ok tt
    pub listed : Memᴰ status (closing_states site)
    pub allowed : allows site before status by.user ≡ true
    pub recorded : closure_of w.closures before.name ≡ some closure
    pub saved : Saved site w by true (closing site before closure status completed) between m'
    pub approval : approve site between closure by ≡ ok w''

  pub close_matter-Closed :
      (status : ℕ) (completed : Bool) {w'' : World} {m' : EscalationMatter}
      → close_matter site w by name status completed ≡ ok (w'', m')
      → Closed status completed w'' m'
  unfolding close_matter
  close_matter-Closed status completed h =
      let (m, e, h1) = >>=-eq-ok (load_matter site w name by.user) _ h in
      let (authorised, h2) = >>-eq-ok (authorise site m close by.user) _ h1 in
      let (listed, h3) =
        throw_if-eq-ok (not (contains (closing_states site) status)) not_a_closure _ h2 in
      let (allowed, h4) =
        refuse_if-eq-ok (not (allows site m status by.user)) (refuse_move site m) _ h3 in
      let (c, recorded, h5) =
        >>=-eq-ok (demand (closure_of w.closures m.name) (thrown no_closure)) _ h4 in
      let ((w1, m1), saves, h6) =
        >>=-eq-ok (save site w by true (closing site m c status completed)) _ h5 in
      let (w2, approves, last) = >>=-eq-ok (approve site w1 c by) _ h6 in
      let same = ok-injective last in
      subst (λ (z : World × EscalationMatter). Closed status completed z.0 z.1) same
        (record {
          before = m;
          closure = c;
          between = w1;
          loaded = load_matter-Loaded e;
          authorised = authorised;
          listed = contains-mem (closing_states site) status (not-false _ listed);
          allowed = not-false _ allowed;
          recorded = demand-eq-ok _ _ recorded;
          saved = save-Saved site w by true (closing site m c status completed) saves;
          approval = approves;
        })

  pub record Taken (w' : World) (m' : EscalationMatter) : Type 0 where
    pub before : EscalationMatter
    pub stored_as : matter_named w name ≡ some before
    pub waiting : is_waiting site before ≡ true
    pub saved :
        Saved site w by true
          (record before { response_owner = some by.user; ownership_taken_on = some by.now })
          w'
          m'

  pub settle_ownership-Taken :
      {w' : World} {m' : EscalationMatter}
      → settle_ownership site w by name ≡ ok (w', m')
      → Taken w' m'
  unfolding settle_ownership
  settle_ownership-Taken h =
      let (m, e, h1) = >>=-eq-ok (demand (matter_named w name) (thrown record_missing)) _ h in
      let (waiting, h2) = throw_if-eq-ok (not (is_waiting site m)) already_taken _ h1 in
      record {
        before = m;
        stored_as = demand-eq-ok _ _ e;
        waiting = not-false _ waiting;
        saved =
            save-Saved site w by true
              (record m { response_owner = some by.user; ownership_taken_on = some by.now }) h2;
      }

-- ===== src/Matters/Saving/Stored.antt =====
-- What a save leaves in the tables.
use enterprise_management.Base.{
  List, ℕ, ◌≡◌, refl, ap, sym, ◌∙◌, subst, inl, inr, ◌⊎◌, Option, none, some, Bool, true, false,
  map, filter, write, write-write, or_else, if◌then◌else◌, if-true, if-false, Bool-cases, ok,
  >>=-eq-ok, ok-injective,
}
use enterprise_management.StateFlags.{is_open}
use enterprise_management.Clocks
use enterprise_management.Clocks.{Clock, start_clock}
use enterprise_management.Matters.{ForumLink, EscalationMatter, matter_doctype}
use enterprise_management.Matters.Site.{Site, Session}
use enterprise_management.Matters.Pathway.{stamp_notified}
use enterprise_management.Matters.Pathway.Stamped.{stamp}
use enterprise_management.Matters.Notices.{reached_forums}
use enterprise_management.Matters.Saving.{
  Dependent, marked_dependent, Closure, impact_changed, sensitivity_changed, marked, propagate,
  notify_forums, notify_impact, told, World, MatterNotice, name_of, stored, timed_by, is_own_clock,
  stop_clocks, keep_timing, stop_timing, sync_under, sync_clock, tell_queue, on_update, saving,
  save, matter_named, validate,
}

abbrev pub with_clock : EscalationMatter → Option ℕ → EscalationMatter
with_clock m c = record m { sla_clock = c }

-- A matter with another clock and other rows.
abbrev pub with_notes : EscalationMatter → Option ℕ → List ForumLink → EscalationMatter
with_notes m c rows = record m { sla_clock = c; governance_forums = rows }

-- The rows that carry the sensitivity of a matter are the same.
abbrev pub SameRows : World → World → Type 0
SameRows w w' = (w'.closures ≡ w.closures) × (w'.dependents ≡ w.dependents)

-- Those of one matter are marked with a sensitivity.
abbrev pub MarkedRows : World → ℕ → Bool → World → Type 0
MarkedRows w name sensitive w' =
    (w'.closures ≡ map (marked name sensitive) w.closures)
    × (w'.dependents ≡ map (marked_dependent name sensitive) w.dependents)

-- What the clock leaves alone, of the world that a matter is stored in.
pub record OnlyTimed (w : World) (m : EscalationMatter) (w' : World) (m' : EscalationMatter)
    : Type 0 where
  pub same : m' ≡ with_clock m m'.sla_clock
  pub same_rows : SameRows w w'
  pub matters : (w'.matters ≡ w.matters) × (m ≡ m') ⊎ (w'.matters ≡ write name_of m' w.matters)

module _ (timing : Clocks.Site) (w : World) (m : EscalationMatter) (now : ℕ) where
  timed_by-OnlyTimed :
      (st : Clocks.Store) (clock : ℕ) {w' : World} {m' : EscalationMatter}
      → timed_by (record w { clocks = st }) m clock ≡ (w', m')
      → OnlyTimed w m w' m'
  timed_by-OnlyTimed st clock h =
      subst (λ (z : World × EscalationMatter). OnlyTimed w m z.0 z.1) h
        (record { same = refl; same_rows = (refl, refl); matters = inr refl })

  keep_timing-OnlyTimed :
      (definition : ℕ) (o : Option Clock) {w' : World} {m' : EscalationMatter}
      → keep_timing timing w m definition o now ≡ ok (w', m')
      → OnlyTimed w m w' m'
  unfolding keep_timing
  keep_timing-OnlyTimed definition (some c) h = timed_by-OnlyTimed w.clocks c.name (ok-injective h)
  keep_timing-OnlyTimed definition none h =
      let ((st, c), e, last) =
        >>=-eq-ok (start_clock timing w.clocks definition matter_doctype m.name m.opened_on now) _
          h in
      timed_by-OnlyTimed st c.name (ok-injective last)

  stop_timing-OnlyTimed :
      {w' : World} {m' : EscalationMatter}
      → stop_timing timing w m now ≡ ok (w', m')
      → OnlyTimed w m w' m'
  unfolding stop_timing
  stop_timing-OnlyTimed h =
      let (st, e, last) =
        >>=-eq-ok
          (stop_clocks timing w.clocks
            (map (λ (c : Clock). c.name)
              (filter (is_own_clock timing.definitions m) w.clocks.clocks))
            (or_else m.closed_on now) now)
          (λ st. ok (record w { clocks = st }, m)) h in
      subst (λ (z : World × EscalationMatter). OnlyTimed w m z.0 z.1) (ok-injective last)
        (record { same = refl; same_rows = (refl, refl); matters = inl (refl, refl) })

  sync_under-OnlyTimed :
      (o : Option ℕ) {w' : World} {m' : EscalationMatter}
      → sync_under timing w m o now ≡ ok (w', m')
      → OnlyTimed w m w' m'
  unfolding sync_under
  sync_under-OnlyTimed none h =
      subst (λ (z : World × EscalationMatter). OnlyTimed w m z.0 z.1) (ok-injective h)
        (record { same = refl; same_rows = (refl, refl); matters = inl (refl, refl) })
  sync_under-OnlyTimed (some definition) h = elim (Bool-cases (m.flags is_open)) [
    | inl up ↦ keep_timing-OnlyTimed definition _ (sym (if-true _ _ up) ∙ h)
    | inr shut ↦ stop_timing-OnlyTimed (sym (if-false _ _ shut) ∙ h)
  ]

  pub sync_clock-OnlyTimed :
      {w' : World} {m' : EscalationMatter}
      → sync_clock timing w m now ≡ ok (w', m')
      → OnlyTimed w m w' m'
  unfolding sync_clock
  sync_clock-OnlyTimed h = sync_under-OnlyTimed m.sla_definition h

-- What an update leaves alone, of the world that a matter is stored in.
pub record Updated (w : World) (before : Option EscalationMatter) (m : EscalationMatter)
    (w' : World) (m' : EscalationMatter) : Type 0 where
  pub same : m' ≡ with_notes m m'.sla_clock m'.governance_forums
  pub rows :
      (m'.governance_forums ≡ m.governance_forums)
      ⊎ ((impact_changed before m ≡ true)
          × (reached : List ℕ) × (now : ℕ) × (m'.governance_forums
              ≡ (stamp_notified m reached now).governance_forums))
  pub marks :
      (sensitivity_changed before m ≡ false) × SameRows w w' ⊎ MarkedRows w m.name m.sensitive w'
  pub matters : (w'.matters ≡ w.matters) × (m ≡ m') ⊎ (w'.matters ≡ write name_of m' w.matters)

module _ (site : Site) where
  abbrev SameBut : World → World → Type 0
  SameBut w w' = (w'.matters ≡ w.matters) × SameRows w w' × (w'.clocks ≡ w.clocks)

  told_if : (w : World) (b : Bool) (n : MatterNotice) → SameBut w (if b then told w n else w)
  told_if w true n = (refl, (refl, refl), refl)
  told_if w false n = (refl, (refl, refl), refl)

  pub tell_queue-matters :
      (w : World) (before : Option EscalationMatter) (m : EscalationMatter)
      → SameBut w (tell_queue site w before m)
  unfolding tell_queue
  tell_queue-matters w before m = told_if w _ _

  abbrev pub marking : World → EscalationMatter → Bool → World
  marking w m b = if b then propagate w m.name m.sensitive else w

  pub marking-matters :
      (w : World) (m : EscalationMatter) (b : Bool)
      → ((marking w m b).matters ≡ w.matters) × ((marking w m b).clocks ≡ w.clocks)
  marking-matters w m true = (refl, refl)
  marking-matters w m false = (refl, refl)

  marking-rows :
      (w w2 : World) (m : EscalationMatter) (b : Bool)
      → SameRows w w2
      → (b ≡ false) × SameRows w (marking w2 m b) ⊎ MarkedRows w m.name m.sensitive (marking w2 m b)
  marking-rows w w2 m true (closures, dependents) = inr (
    ap (λ (z : List Closure). map (marked m.name m.sensitive) z) closures,
    ap (λ (z : List Dependent). map (marked_dependent m.name m.sensitive) z) dependents,
  )
  marking-rows w w2 m false same = inl (refl, same)

  -- The end of an update, of the world and the matter that the clock left.
  ended :
      (w w2 : World) (before : Option EscalationMatter) (m m1 : EscalationMatter) (by : Session)
      → m1 ≡ with_clock m m1.sla_clock
      → SameRows w w2
      → (w2.matters ≡ w.matters) × (m ≡ m1) ⊎ (w2.matters ≡ write name_of m1 w.matters)
      → {w' : World} {m' : EscalationMatter}
      → (if impact_changed before m
          then notify_impact site (marking w2 m (sensitivity_changed before m)) m1 by
          else (marking w2 m (sensitivity_changed before m), m1))
        ≡ (w', m')
      → Updated w before m w' m'
  unfolding notify_impact notify_forums stamp_notified
  ended w w2 before m m1 by same rows matters h =
      let (kept, clocks) = marking-matters w2 m (sensitivity_changed before m) in
      let marks = marking-rows w w2 m (sensitivity_changed before m) rows in
      elim (Bool-cases (impact_changed before m)) [
        | inl changed ↦
            subst (λ (z : World × EscalationMatter). Updated w before m z.0 z.1)
              (sym (if-true _ _ changed) ∙ h)
              (record {
                same =
                    ap
                      (λ (z : EscalationMatter).
                        with_notes z m1.sla_clock (
                          map (stamp (reached_forums site m1 by.today) by.now)
                            m1.governance_forums))
                      same;
                rows = inr (
                  changed,
                  reached_forums site m1 by.today,
                  by.now,
                  ap
                      (λ (z : EscalationMatter).
                        map (stamp (reached_forums site m1 by.today) by.now) z.governance_forums)
                      same,
                );
                marks = marks;
                matters = inr (elim matters [
                  | inl (q, is_it) ↦
                      ap
                        (λ (z : List EscalationMatter).
                          write name_of (stamp_notified m1 (reached_forums site m1 by.today) by.now)
                            z)
                        (kept ∙ q)
                  | inr q ↦
                      ap
                        (λ (z : List EscalationMatter).
                          write name_of (stamp_notified m1 (reached_forums site m1 by.today) by.now)
                            z)
                        (kept ∙ q)
                      ∙ write-write name_of _ m1 w.matters refl
                ]);
              })
        | inr unchanged ↦
            subst (λ (z : World × EscalationMatter). Updated w before m z.0 z.1)
              (sym (if-false _ _ unchanged) ∙ h)
              (record {
                same =
                    same
                    ∙ ap (λ (z : List ForumLink). with_notes m m1.sla_clock z)
                        (sym (ap (λ (z : EscalationMatter). z.governance_forums) same));
                rows = inl (ap (λ (z : EscalationMatter). z.governance_forums) same);
                marks = marks;
                matters = elim matters [
                  | inl (q, is_it) ↦ inl (kept ∙ q, is_it)
                  | inr q ↦ inr (kept ∙ q)
                ];
              })
      ]

  pub on_update-Updated :
      (w : World) (before : Option EscalationMatter) (m : EscalationMatter) (by : Session)
      {w' : World} {m' : EscalationMatter}
      → on_update site w before m by ≡ ok (w', m')
      → Updated w before m w' m'
  unfolding on_update
  on_update-Updated w before m by h =
      let ((w1, m1), e, last) = >>=-eq-ok (sync_clock site.timing w m by.now) _ h in
      let o = sync_clock-OnlyTimed site.timing w m by.now e in
      let (matters, (closures, dependents), clocks) = tell_queue-matters w1 before m1 in
      ended w (tell_queue site w1 before m1) before m m1 by o.same
        (closures ∙ o.same_rows.0, dependents ∙ o.same_rows.1)
        (elim o.matters [
          | inl (kept, same) ↦ inl (matters ∙ kept, same)
          | inr written ↦ inr (matters ∙ written)
        ])
        (ok-injective last)

  -- A save that succeeds stores the matter as its checks leave it, but for the clock and the stamps
  -- of its pathway, in its row.
  pub record Saved (w : World) (by : Session) (ignore_permissions : Bool) (m : EscalationMatter)
      (w' : World) (m' : EscalationMatter) : Type 0 where
    pub checked : EscalationMatter
    pub passed : validate site w.closures by (saving site w m ignore_permissions) m ≡ ok checked
    pub update : Updated (stored w checked) (matter_named w m.name) checked w' m'
    pub matters : w'.matters ≡ write name_of m' w.matters

  pub save-Saved :
      (w : World) (by : Session) (ignore_permissions : Bool) (m : EscalationMatter) {w' : World}
      {m' : EscalationMatter}
      → save site w by ignore_permissions m ≡ ok (w', m')
      → Saved w by ignore_permissions m w' m'
  unfolding save
  save-Saved w by ignore_permissions m {w'} {m'} h =
      let (v, e, rest) =
        >>=-eq-ok (validate site w.closures by (saving site w m ignore_permissions) m) _ h in
      let o = on_update-Updated (stored w v) (matter_named w m.name) v by rest in
      record {
        checked = v;
        passed = e;
        update = o;
        matters = elim o.matters [
          | inl (kept, same) ↦ kept ∙ ap (λ (z : EscalationMatter). write name_of z w.matters) same
          | inr written ↦
              written
              ∙ write-write name_of m' v w.matters
                  (sym (ap (λ (z : EscalationMatter). z.name) o.same))
        ];
      }

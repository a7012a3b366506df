-- ===== src/Matters/Saving/Timed.antt =====
-- An open matter under a service level is timed by a clock of that service level.
use enterprise_management.Base.{
  false, if◌then◌else◌, some-injective, ℕ, ◌≡◌, refl, ap, sym, ◌∙◌, subst, Option, none, some, Bool,
  true, not, ◌&&◌, List, [], ◌∷◌, ◌++◌, Memᴰ, mem-filter, filter, head?, find, find-mem, read,
  read-name, ==_refl, &&_parts, demand-eq-ok, if-true, is_some, or_else, ok, >>=-eq-ok,
  ok-injective, arith,
}
use enterprise_management.StateFlags.{is_open, get_flag_map}
use enterprise_management.StateFlags.Keeps.{apply_state_flags-keeps}
use enterprise_management.Clocks
use enterprise_management.Clocks.{
  Clock, Definition, clock_doc, sla_clock, times, is_open_clock, fresh_clock, validate_clock,
  new_clock, start_or_reuse, start_clock, target_datetime,
}
use enterprise_management.Matters.{EscalationMatter, matter_doctype}
use enterprise_management.Matters.Site.{Site, Session}
use enterprise_management.Matters.Pathway.{stamp_notified}
use enterprise_management.Matters.Saving.{
  notify_forums, notify_impact, impact_changed, sensitivity_changed, stamp_notified, tell_queue,
  World, is_overdue, keep_timing, sync_under, sync_clock, on_update, save, saving, stored,
  matter_named, validate,
}
use enterprise_management.Matters.Saving.Stored.{
  marking-matters, marking, on_update-Updated, tell_queue-matters,
}

-- The columns that say what a clock times.
abbrev aim : Clock → ℕ × ℕ × ℕ
aim c = (c.sla_definition, c.subject_doctype, c.subject_name)

last_in : (clocks : List Clock) (c : Clock) → Memᴰ c (clocks ++ c ∷ [])
last_in [] c = Memᴰ.head refl
last_in (x ∷ clocks) c = Memᴰ.tail (last_in clocks c)

times-aim : (d t n : ℕ) (c : Clock) → aim c ≡ (d, t, n) → times d t n c ≡ true
times-aim d t n c e =
    let p = ap (λ (z : ℕ × ℕ × ℕ). z.0) e in
    let q = ap (λ (z : ℕ × ℕ × ℕ). z.1) e in
    let r = ap (λ (z : ℕ × ℕ × ℕ). z.2) e in rw (p, q, r, ==_refl d, ==_refl t, ==_refl n) refl

module _ (timing : Clocks.Site) (st : Clocks.Store) (definition doctype subject : ℕ) where
  new_clock-times :
      (d : Definition) (started_on : ℕ) {st' : Clocks.Store} {c : Clock}
      → d.name ≡ definition
      → new_clock timing st d doctype subject started_on ≡ ok (st', c)
      → Memᴰ c st'.clocks × (times definition doctype subject c ≡ true)
  unfolding new_clock validate_clock
  new_clock-times d started_on {st'} {c} named h =
      let (target, e, h1) = >>=-eq-ok (target_datetime timing d started_on) _ h in
      let (v, e', last) =
        >>=-eq-ok
          (validate_clock timing (fresh_clock timing st d doctype subject started_on target)) _
          h1 in
      let kept =
        apply_state_flags-keeps clock_doc aim (λ c f b. ground arith) timing.workflow_field
          (get_flag_map timing.flag_rows sla_clock)
          (fresh_clock timing st d doctype subject started_on target) e' in
      subst
        (λ (z : Clocks.Store × Clock).
          Memᴰ z.1 z.0.clocks × (times definition doctype subject z.1 ≡ true))
        (ok-injective last)
        (
          last_in st.clocks v,
          times-aim definition doctype subject v
              (kept ∙ ap (λ (n : ℕ). (n, doctype, subject)) named),
        )

  start_or_reuse-times :
      (o : Option Clock) (d : Definition) (started_on : ℕ) {st' : Clocks.Store} {c : Clock}
      → find (is_open_clock definition doctype subject) st.clocks ≡ o
      → d.name ≡ definition
      → start_or_reuse timing st o d doctype subject started_on ≡ ok (st', c)
      → Memᴰ c st'.clocks × (times definition doctype subject c ≡ true)
  unfolding start_or_reuse
  start_or_reuse-times (some x) d started_on {st'} {c} found named h =
      let (listed, open_) = find-mem (is_open_clock definition doctype subject) st.clocks found in
      subst
        (λ (z : Clocks.Store × Clock).
          Memᴰ z.1 z.0.clocks × (times definition doctype subject z.1 ≡ true))
        (ok-injective h) (listed, (&&_parts _ _ open_).0)
  start_or_reuse-times none d started_on found named h = new_clock-times d started_on named h

  start_clock-times :
      (started_on : Option ℕ) (now : ℕ) {st' : Clocks.Store} {c : Clock}
      → start_clock timing st definition doctype subject started_on now ≡ ok (st', c)
      → Memᴰ c st'.clocks × (times definition doctype subject c ≡ true)
  unfolding start_clock
  start_clock-times started_on now h =
      let (d, e, h1) =
        >>=-eq-ok (Clocks.need (read (λ (d : Definition). d.name) definition timing.definitions)) _
          h in
      start_or_reuse-times _ d (or_else started_on now) refl
        (read-name (λ (d : Definition). d.name) definition timing.definitions (demand-eq-ok _ _ e))
        h1

-- A clock of the service level, on the matter, that the matter names.
pub record IsTimed (w : World) (m : EscalationMatter) (definition : ℕ) : Type 0 where
  pub clock : Clock
  pub listed : Memᴰ clock w.clocks.clocks
  pub named : m.sla_clock ≡ some clock.name
  pub timing : times definition matter_doctype m.name clock ≡ true

head-mem : {A : Type 0} {a : A} (xs : List A) → head? xs ≡ some a → Memᴰ a xs
head-mem [] e = absurd (cc)
head-mem (x ∷ xs) e = Memᴰ.head (cc)

overdue-times :
    (m : EscalationMatter) (definition : ℕ) (c : Clock)
    → is_overdue m definition c ≡ true
    → times definition matter_doctype m.name c ≡ true
overdue-times m definition c h =
    first (times definition matter_doctype m.name c) (is_some c.breached_on)
      (not (is_some c.stopped_on)) h
  where
    first : (x y z : Bool) → (x && y && z) ≡ true → x ≡ true
    first x y z h = ground arith

module _ (timing : Clocks.Site) (w : World) (m : EscalationMatter) (definition now : ℕ) where
  keep_timing-IsTimed :
      (o : Option Clock) {w' : World} {m' : EscalationMatter}
      → head? (filter (is_overdue m definition) w.clocks.clocks) ≡ o
      → keep_timing timing w m definition o now ≡ ok (w', m')
      → IsTimed w' m' definition
  unfolding keep_timing
  keep_timing-IsTimed (some c) first h =
      let (listed, overdue) =
        mem-filter (is_overdue m definition) w.clocks.clocks (head-mem _ first) in
      subst (λ (z : World × EscalationMatter). IsTimed z.0 z.1 definition) (ok-injective h)
        (record {
          clock = c;
          listed = listed;
          named = refl;
          timing = overdue-times m definition c overdue;
        })
  keep_timing-IsTimed none first h =
      let ((st, c), e, last) =
        >>=-eq-ok (start_clock timing w.clocks definition matter_doctype m.name m.opened_on now) _
          h in
      let (listed, aimed) =
        start_clock-times timing w.clocks definition matter_doctype m.name m.opened_on now e in
      subst (λ (z : World × EscalationMatter). IsTimed z.0 z.1 definition) (ok-injective last)
        (record { clock = c; listed = listed; named = refl; timing = aimed })

  sync_under-IsTimed :
      (o : Option ℕ) {w' : World} {m' : EscalationMatter}
      → o ≡ some definition
      → m.flags is_open ≡ true
      → sync_under timing w m o now ≡ ok (w', m')
      → IsTimed w' m' definition
  unfolding sync_under
  sync_under-IsTimed none under up h = absurd (cc)
  sync_under-IsTimed (some d) {w'} {m'} under up h =
      let same = some-injective under in
      keep_timing-IsTimed _ refl (
        subst
          (λ (z : ℕ).
            keep_timing timing w m z (head? (filter (is_overdue m z) w.clocks.clocks)) now
            ≡ ok (w', m'))
          same (sym (if-true _ _ up) ∙ h))

module _ (site : Site) (definition : ℕ) where
  -- The notice of an impact, and the stamps it leaves, do not touch the clock.
  notified_IsTimed :
      (w : World) (m : EscalationMatter) (by : Session) (changed : Bool) {w' : World}
      {m' : EscalationMatter}
      → (if changed then notify_impact site w m by else (w, m)) ≡ (w', m')
      → IsTimed w m definition
      → IsTimed w' m' definition
  unfolding notify_impact notify_forums stamp_notified
  notified_IsTimed w m by true h t =
      subst (λ (z : World × EscalationMatter). IsTimed z.0 z.1 definition) h
        (record { clock = t.clock; listed = t.listed; named = t.named; timing = t.timing })
  notified_IsTimed w m by false h t =
      subst (λ (z : World × EscalationMatter). IsTimed z.0 z.1 definition) h t

  with_clocks :
      (w w' : World) (m : EscalationMatter)
      → w'.clocks ≡ w.clocks
      → IsTimed w m definition
      → IsTimed w' m definition
  with_clocks w w' m same t = record {
    clock = t.clock;
    listed = subst (λ (z : Clocks.Store). Memᴰ t.clock z.clocks) (sym same) t.listed;
    named = t.named;
    timing = t.timing;
  }

  on_update-IsTimed :
      (w : World) (before : Option EscalationMatter) (m : EscalationMatter) (by : Session)
      {w' : World} {m' : EscalationMatter}
      → on_update site w before m by ≡ ok (w', m')
      → m.flags is_open ≡ true
      → m.sla_definition ≡ some definition
      → IsTimed w' m' definition
  unfolding on_update sync_clock
  on_update-IsTimed w before m by h up under =
      let ((w1, m1), e, last) = >>=-eq-ok (sync_clock site.timing w m by.now) _ h in
      let w2 = tell_queue site w1 before m1 in
      let b = sensitivity_changed before m in
      let same : (marking site w2 m b).clocks ≡ w1.clocks =
        (marking-matters site w2 m b).1 ∙ (tell_queue-matters site w1 before m1).2 in
      notified_IsTimed (marking site w2 m b) m1 by (impact_changed before m) (ok-injective last) (
        with_clocks w1 (marking site w2 m b) m1 same
          (sync_under-IsTimed site.timing w m definition by.now m.sla_definition under up e))

-- After a save that succeeds, a matter that is open and under a service level names a clock of the
-- table that is of that service level and on that matter.
pub save-IsTimed :
    (site : Site) (w : World) (by : Session) (ignore_permissions : Bool) (m0 : EscalationMatter)
    (definition : ℕ) {w' : World} {m : EscalationMatter}
    → save site w by ignore_permissions m0 ≡ ok (w', m)
    → m.flags is_open ≡ true
    → m.sla_definition ≡ some definition
    → IsTimed w' m definition
unfolding save
save-IsTimed site w by ignore_permissions m0 definition {w'} {m} h up under =
    let (v, e, rest) =
      >>=-eq-ok (validate site w.closures by (saving site w m0 ignore_permissions) m0) _ h in
    let same = (on_update-Updated site (stored w v) (matter_named w m0.name) v by rest).same in
    on_update-IsTimed site definition (stored w v) (matter_named w m0.name) v by rest
      (sym (ap (λ (z : EscalationMatter). z.flags is_open) same) ∙ up)
      (sym (ap (λ (z : EscalationMatter). z.sla_definition) same) ∙ under)

-- ===== src/Clocks/Sync/Live.antt =====
-- The live update keeps an open clock exactly while the record is in the state.
use enterprise_management.Base.{
  ◌⊎◌, get, ℕ, ◌≡◌, refl, ap, ◌∙◌, sym, Option, none, some, Bool, true, false, List, [], ◌∷◌, Memᴰ,
  arith, ok, inl, inr, Bool-cases, >>=-eq-ok, demand-eq-ok, ok-injective, find, any, read-name,
  subst, &&_parts, find-mem, write-mem, any-append, any-mem, mem-any, same, read, or_else,
}
use enterprise_management.StateFlags.{Flags, ByValue, is_open, get_flag_map}
use enterprise_management.Clocks.{
  Definition, Clock, Site, Store, running, met, breached, sla_clock, status_field, is_open_clock,
  times, written, fresh_clock, start_clock, stop_clock, start_or_reuse, new_clock, save_clock,
  stopped, validate_clock, target_datetime, need,
}
use enterprise_management.Clocks.Saving.{validate_clock-configured}
use enterprise_management.Clocks.Sync.{
  Saved, was_in, applies_to, start_at, stop_open, stop_found, starts_on, live_state,
}

find-any-none : {A : Type 0} (p : A → Bool) (xs : List A) → find p xs ≡ none → any p xs ≡ false
find-any-none p [] h = refl
find-any-none p (x ∷ xs) h = ground (arith, find-any-none p xs)

find-any-some :
    {A : Type 0} (p : A → Bool) (xs : List A) {a : A} → find p xs ≡ some a → any p xs ≡ true
find-any-some p xs h = let (m, q) = find-mem p xs h in mem-any p m q

-- A record and a definition have one open clock at most.
abbrev pub OneOpen : ℕ → ℕ → ℕ → List Clock → Type 0
OneOpen d doctype subject clocks =
    (a b : Clock)
    → Memᴰ a clocks
    → Memᴰ b clocks
    → is_open_clock d doctype subject a ≡ true
    → is_open_clock d doctype subject b ≡ true
    → a.name ≡ b.name

module _ (site : Site) (by_value : ByValue) (on off late : Flags)
    (by_status : get_flag_map site.flag_rows sla_clock ≡ (status_field, by_value) ∷ [])
    (running_is : get running by_value ≡ some on) (opens : on is_open ≡ true)
    (met_is : get met by_value ≡ some off) (closes : off is_open ≡ false)
    (breached_is : get breached by_value ≡ some late) (shuts : late is_open ≡ false) where
  new_clock-open :
      (st : Store) (d : Definition) (doctype subject started_on : ℕ) {st' : Store} {c : Clock}
      → new_clock site st d doctype subject started_on ≡ ok (st', c)
      → any (is_open_clock d.name doctype subject) st'.clocks ≡ true
  unfolding new_clock
  new_clock-open st d doctype subject started_on h =
      let (target, _, saving) = >>=-eq-ok (target_datetime site d started_on) _ h in
      let blank = fresh_clock site st d doctype subject started_on target in
      let (c, saved, e) = >>=-eq-ok (validate_clock site blank) _ saving in
      let made : record blank { open_flag = on is_open } ≡ c =
        ok-injective
          (sym (validate_clock-configured site by_value by_status blank on running_is) ∙ saved) in
      rw (← ap (λ (p : Store × Clock). p.0) (ok-injective e)) (
        any-append (is_open_clock d.name doctype subject) st.clocks (c ∷ [])
        ∙ rw (← made) (ground (arith, opens)))

  saved-shut :
      (c : Clock) (flags : Flags)
      → get c.status by_value ≡ some flags
      → flags is_open ≡ false
      → {c' : Clock} → validate_clock site c ≡ ok c'
      → (c'.open_flag ≡ false) × (c'.name ≡ c.name)
  saved-shut c flags e shut h =
      rw (← ok-injective (sym (validate_clock-configured site by_value by_status c flags e) ∙ h))
        (shut, refl)

  status-stopped :
      (c : Clock) (at_time : ℕ)
      → ((stopped site c at_time).status ≡ breached) ⊎ ((stopped site c at_time).status ≡ met)
  unfolding stopped
  status-stopped c at_time = ground arith

  name-stopped : (c : Clock) (at_time : ℕ) → (stopped site c at_time).name ≡ c.name
  unfolding stopped
  name-stopped c at_time = refl

  stopped-saved :
      (c : Clock) (at_time : ℕ) {c' : Clock}
      → validate_clock site (stopped site c at_time) ≡ ok c'
      → (c'.open_flag ≡ false) × (c'.name ≡ c.name)
  stopped-saved c at_time h =
      let x = stopped site c at_time in
      elim (status-stopped c at_time) [
        | inl e ↦
            let (shut, named) =
              saved-shut x late (ap (λ v. get v by_value) e ∙ breached_is) shuts h in
            (shut, named ∙ name-stopped c at_time)
        | inr e ↦
            let (shut, named) = saved-shut x off (ap (λ v. get v by_value) e ∙ met_is) closes h in
            (shut, named ∙ name-stopped c at_time)
      ]

  stop_clock-closes :
      (st : Store) (c : Clock) (at_time : Option ℕ) (now : ℕ) {st' : Store} {c' : Clock}
      → stop_clock site st c at_time now ≡ ok (st', c')
      → (c'.open_flag ≡ false) × (c'.name ≡ c.name) × (written st c' ≡ st')
  unfolding stop_clock save_clock
  stop_clock-closes st c at_time now h =
      let (x, saved, e) =
        >>=-eq-ok (validate_clock site (stopped site c (or_else at_time now))) _ h in
      let both = ok-injective e in
      let (shut, named) = stopped-saved c (or_else at_time now) saved in
      rw (← ap (λ (p : Store × Clock). p.1) both)
        (shut, named, ap (λ (p : Store × Clock). p.0) both)

  any-false :
      (p : Clock → Bool) (xs : List Clock)
      → ((c : Clock) → Memᴰ c xs → p c ≡ true → ⊥)
      → any p xs ≡ false
  any-false p xs h = elim (Bool-cases (any p xs)) [
    | inl e ↦ let (c, m, q) = any-mem p xs e in absurd (h c m q)
    | inr e ↦ e
  ]

  open_flag-lem : (d t n : ℕ) (x : Clock) → is_open_clock d t n x ≡ true → x.open_flag ≡ true
  open_flag-lem d t n x h = (&&_parts (times d t n x) x.open_flag h).1

  stop_found-none :
      (st : Store) (definition doctype subject : ℕ) (o : Option Clock) (at_time now : ℕ)
      {st' : Store}
      → OneOpen definition doctype subject st.clocks
      → find (is_open_clock definition doctype subject) st.clocks ≡ o
      → stop_found site st o at_time now ≡ ok st'
      → any (is_open_clock definition doctype subject) st'.clocks ≡ false
  unfolding stop_found
  stop_found-none st d t n none at_time now one e h =
      rw (← ok-injective h) (find-any-none (is_open_clock d t n) st.clocks e)
  stop_found-none st d t n (some c) at_time now {st'} one e h =
      let p = is_open_clock d t n in
      let ((st1, c1), stopping, last) = >>=-eq-ok (stop_clock site st c (some at_time) now) _ h in
      let (shut, named, table) = stop_clock-closes st c (some at_time) now stopping in
      let (m, q) = find-mem p st.clocks e in
      rw (← (table ∙ ok-injective last)) (
        any-false p (written st c1).clocks (λ x k open_x.
          elim (write-mem (λ (r : Clock). r.name) c1 st.clocks k) [
            | inl same ↦
                absurd
                  (cc (ap (λ (r : Clock). r.open_flag) same, shut, open_flag-lem d t n x open_x))
            | inr (old, other) ↦ absurd (other (one x c old m open_x q ∙ sym named))
          ]))

  stop_open-none :
      (st : Store) (d : Definition) (s : Saved) (now : ℕ) {st' : Store}
      → OneOpen d.name s.doctype s.name st.clocks
      → stop_open site st d s now ≡ ok st'
      → any (is_open_clock d.name s.doctype s.name) st'.clocks ≡ false
  unfolding stop_open
  stop_open-none st d s now one h =
      stop_found-none st d.name s.doctype s.name _ s.modified now one refl h

  start_or_reuse-open :
      (st : Store) (d : Definition) (name doctype subject started_on : ℕ) (o : Option Clock)
      {r : Store × Clock}
      → d.name ≡ name
      → find (is_open_clock name doctype subject) st.clocks ≡ o
      → start_or_reuse site st o d doctype subject started_on ≡ ok r
      → any (is_open_clock name doctype subject) r.0.clocks ≡ true
  unfolding start_or_reuse
  start_or_reuse-open st d name doctype subject started_on none {r} named e h =
      subst (λ (k : ℕ). any (is_open_clock k doctype subject) r.0.clocks ≡ true) named
        (new_clock-open st d doctype subject started_on h)
  start_or_reuse-open st d name doctype subject started_on (some c) named e h =
      rw (← ap (λ (p : Store × Clock). p.0) (ok-injective h))
        (find-any-some (is_open_clock name doctype subject) st.clocks e)

  start_at-open :
      (st : Store) (d : Definition) (s : Saved) (started_on now : ℕ) {st' : Store}
      → start_at site st d s started_on now ≡ ok st'
      → any (is_open_clock d.name s.doctype s.name) st'.clocks ≡ true
  unfolding start_at start_clock
  start_at-open st d s started_on now h =
      let (r, starting, last) =
        >>=-eq-ok (start_clock site st d.name s.doctype s.name (some started_on) now) _ h in
      let (x, found, rest) =
        >>=-eq-ok (need (read (λ (e : Definition). e.name) d.name site.definitions)) _ starting in
      let named : x.name ≡ d.name =
        read-name (λ (e : Definition). e.name) d.name site.definitions (demand-eq-ok _ _ found) in
      rw (← ok-injective last)
        (start_or_reuse-open st x d.name s.doctype s.name started_on _ named refl rest)

  module _ (st : Store) (d : Definition) (s : Saved) (now : ℕ) {st' : Store} where
    -- Where flags are configured by `status` alone, Running as open and Met and Breached as not,
    -- the definition applies to the record, and the record has at most one open clock for it, and
    -- has one exactly when it was in the measured state, a live update that succeeds leaves an
    -- open clock exactly when the record is in the state.
    pub live_state-tracks :
        applies_to site d s.doctype s.name ≡ true
        → OneOpen d.name s.doctype s.name st.clocks
        → any (is_open_clock d.name s.doctype s.name) st.clocks ≡ was_in s.before d.state_value
        → live_state site st d s now ≡ ok st'
        → any (is_open_clock d.name s.doctype s.name) st'.clocks ≡ same s.value d.state_value
    unfolding live_state
    live_state-tracks applies one synced h = elim (Bool-cases (same s.value d.state_value)) [
      | inl inside ↦ elim (Bool-cases (was_in s.before d.state_value)) [
        | inl was ↦ rw (← ok-injective (rw (inside, was) at h)) (synced ∙ was ∙ sym inside)
        | inr was_not ↦
            start_at-open st d s (starts_on s) now (rw (inside, was_not, applies) at h) ∙ sym inside
      ]
      | inr outside ↦ elim (Bool-cases (was_in s.before d.state_value)) [
        | inl was ↦ stop_open-none st d s now one (rw (outside, was) at h) ∙ sym outside
        | inr was_not ↦
            rw (← ok-injective (rw (outside, was_not) at h)) (synced ∙ was_not ∙ sym outside)
      ]
    ]

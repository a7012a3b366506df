-- ===== src/Clocks/Sweeping.antt =====
-- What the sweep does to every clock: the loop over names against one function of the clock.
pub mod Again
use enterprise_management.Base.{
  inr, inl, get, ℕ, ◌≡◌, refl, ap, ◌∙◌, sym, Option, none, some, Bool, true, false, not, ◌&&◌, List,
  [], ◌∷◌, ◌++◌, map, Memᴰ, arith, ok, is_some, ltb, if◌then◌else◌, read, write, filter,
  AreDistinct, read-middle, write-middle, Bool-cases, append_assoc, append_nil, subst,
}
use enterprise_management.StateFlags.{Flags, ByValue, is_open, get_flag_map}
use enterprise_management.Clocks.{
  Definition, Clock, Site, Store, Notice, sla_breached, sla_warning, clock_named, written,
  sla_clock, status_field, breached, save_clock,
}
use enterprise_management.Clocks.Sweep.{
  now_breached, breach_clock, warn_clock, noticed, breach_notified_elsewhere, warning_due_at,
  due_by, sweep_clock, sweep_named, sweep_names, sweep,
}
use enterprise_management.Clocks.Saving.{validate_clock-configured}

abbrev pub definition_of : Site → Clock → Option Definition
definition_of site c = read (λ (d : Definition). d.name) c.sla_definition site.definitions

abbrev pub is_overdue : ℕ → Clock → Bool
is_overdue as_of c = c.open_flag && ltb c.target_on as_of

abbrev pub is_due_under : Site → ℕ → Clock → Option Definition → Bool
is_due_under site as_of c none = false
is_due_under site as_of c (some d) =
    due_by (warning_due_at site c d) as_of && not (is_some c.warning_sent_on)

-- A clock that is open, in time, past its warning and not yet warned.
abbrev pub is_warned : Site → ℕ → Clock → Bool
is_warned site as_of c =
    c.open_flag && not (ltb c.target_on as_of) && is_due_under site as_of c (definition_of site c)

abbrev pub was_breached : Clock → ℕ → Clock
was_breached c now = record c { status = breached; breached_on = some now; open_flag = false }

abbrev pub was_warned : Clock → ℕ → Clock
was_warned c now = record c { warning_sent_on = some now }

abbrev pub breach_notice : Site → Clock → List Notice
breach_notice site c = if breach_notified_elsewhere site c then [] else sla_breached c.name ∷ []

-- What a sweep makes of one clock.
unfoldable pub after_sweep : Site → ℕ → ℕ → Clock → Clock
after_sweep site as_of now c =
    if is_overdue as_of c
    then was_breached c now
    else if is_warned site as_of c
    then was_warned c now
    else c

unfoldable pub notices_of : Site → ℕ → Clock → List Notice
notices_of site as_of c =
    if is_overdue as_of c
    then breach_notice site c
    else if is_warned site as_of c
    then sla_warning c.name ∷ []
    else []

abbrev pub concat_map {ℓ κ} : {A : Type ℓ} {B : Type κ} → (A → List B) → List A → List B
concat_map f [] = []
concat_map f (x ∷ xs) = f x ++ concat_map f xs

abbrev pub name_of : Clock → ℕ
name_of c = c.name

abbrev pub hit : ℕ → Clock → List ℕ
hit as_of c = if is_overdue as_of c then c.name ∷ [] else []

abbrev pub store_at : List Clock → List Notice → Store
store_at clocks notices = record { clocks = clocks; notices = notices }

-- Every open clock's definition exists.
abbrev pub AllKnown : Site → List Clock → Type 0
AllKnown site clocks =
    (c : Clock)
    → Memᴰ c clocks
    → c.open_flag ≡ true
    → (d : Definition) × (definition_of site c ≡ some d)

module _ (site : Site) (by_value : ByValue) (flags : Flags)
    (by_status : get_flag_map site.flag_rows sla_clock ≡ (status_field, by_value) ∷ [])
    (configured : get breached by_value ≡ some flags) (closes : flags is_open ≡ false) where
  save_clock-breached :
      (st : Store) (c : Clock) (now : ℕ)
      → save_clock site st (now_breached c now)
        ≡ ok (written st (was_breached c now), was_breached c now)
  unfolding save_clock
  save_clock-breached st c now = rw (
    validate_clock-configured site by_value by_status (now_breached c now) flags configured,
    closes,
  )

  module _ (as_of now : ℕ) where
    breach_clock-lem :
        (st : Store) (c : Clock)
        → breach_clock site st c now
          ≡ ok (noticed (written st (was_breached c now)) (breach_notice site c), c.name ∷ [])
    unfolding breach_clock
    breach_clock-lem st c = rw (save_clock-breached st c now)

    module _ (c : Clock) (d : Definition) (opened : c.open_flag ≡ true)
        (known : definition_of site c ≡ some d) where
      late-lem :
          ltb c.target_on as_of ≡ true
          → (after_sweep site as_of now c ≡ was_breached c now)
            × (notices_of site as_of c ≡ breach_notice site c)
            × (hit as_of c ≡ c.name ∷ [])
      unfolding after_sweep notices_of
      late-lem late = ground arith

      in_time-lem : ltb c.target_on as_of ≡ false → hit as_of c ≡ []
      in_time-lem in_time = ground arith

      warned-lem :
          (st : Store)
          → ltb c.target_on as_of ≡ false
          → is_due_under site as_of c (some d) ≡ true
          → (warn_clock site d st c as_of now
              ≡ noticed (written st (was_warned c now)) (sla_warning c.name ∷ []))
            × (after_sweep site as_of now c ≡ was_warned c now)
            × (notices_of site as_of c ≡ sla_warning c.name ∷ [])
      unfolding warn_clock after_sweep notices_of
      warned-lem st in_time due = rw known (ground arith)

      quiet-lem :
          (st : Store)
          → ltb c.target_on as_of ≡ false
          → is_due_under site as_of c (some d) ≡ false
          → (warn_clock site d st c as_of now ≡ st)
            × (after_sweep site as_of now c ≡ c)
            × (notices_of site as_of c ≡ [])
      unfolding warn_clock after_sweep notices_of
      quiet-lem st in_time due = rw known (ground arith)

      -- The round on a clock that stands once in the table.
      one_round :
          (before after : List Clock) (n : List Notice)
          → AreDistinct (map name_of (before ++ c ∷ after))
          → sweep_named site (store_at (before ++ c ∷ after) n) c.name as_of now
            ≡ ok (
              store_at
                  (before ++ after_sweep site as_of now c ∷ after)
                  (n ++ notices_of site as_of c),
              hit as_of c,
            )
      unfolding sweep_named sweep_clock
      one_round before after n distinct =
          let st = store_at (before ++ c ∷ after) n in
          let replaced : (e : Clock)
              → e.name ≡ c.name
              → write name_of e (before ++ c ∷ after) ≡ before ++ e ∷ after =
            λ e same. write-middle name_of e before c after same distinct in
          rw (read-middle name_of before c after distinct, known)
            (elim (Bool-cases (ltb c.target_on as_of)) [
              | inl late ↦
                  let (e, told, named) = late-lem late in
                  rw (
                    named,
                    e,
                    told,
                    late,
                    breach_clock-lem st c,
                    replaced (was_breached c now) refl,
                  )
              | inr in_time ↦ elim (Bool-cases (is_due_under site as_of c (some d))) [
                | inl due ↦
                    let (w, e, told) = warned-lem st in_time due in
                    rw (in_time-lem in_time, e, told, in_time, w, replaced (was_warned c now) refl)
                | inr quiet ↦
                    let (w, e, told) = quiet-lem st in_time quiet in
                    rw (in_time-lem in_time, e, told, in_time, w, append_nil n)
              ]
            ])

    names-middle :
        (before : List Clock) (x c : Clock) (rest : List Clock)
        → x.name ≡ c.name
        → map name_of ((before ++ x ∷ []) ++ rest) ≡ map name_of (before ++ c ∷ rest)
    names-middle [] x c rest e = ap (λ k. k ∷ map name_of rest) e
    names-middle (b ∷ before) x c rest e = ap (λ r. b.name ∷ r) (names-middle before x c rest e)

    pub name-after_sweep : (c : Clock) → (after_sweep site as_of now c).name ≡ c.name
    unfolding after_sweep
    name-after_sweep c = ground arith

    open_names : List Clock → List ℕ
    open_names clocks = map name_of (filter (λ c. c.open_flag) clocks)

    open_names-open :
        (c : Clock) (rest : List Clock)
        → c.open_flag ≡ true
        → open_names (c ∷ rest) ≡ c.name ∷ open_names rest
    unfolding open_names
    open_names-open c rest e = ground arith

    shut-lem :
        (c : Clock) (rest : List Clock)
        → c.open_flag ≡ false
        → (open_names (c ∷ rest) ≡ open_names rest)
          × (after_sweep site as_of now c ≡ c)
          × (notices_of site as_of c ≡ [])
          × (hit as_of c ≡ [])
    unfolding open_names after_sweep notices_of
    shut-lem c rest e = ground arith

    sweep_names-rest :
        (before rest : List Clock) (n : List Notice)
        → AreDistinct (map name_of (before ++ rest))
        → AllKnown site rest
        → sweep_names site (store_at (before ++ rest) n) (open_names rest) as_of now
          ≡ ok (
            store_at
                (before ++ map (after_sweep site as_of now) rest)
                (n ++ concat_map (notices_of site as_of) rest),
            concat_map (hit as_of) rest,
          )
    unfolding sweep_names open_names
    sweep_names-rest before [] n distinct known = rw (append_nil n)
    sweep_names-rest before (c ∷ rest) n distinct known =
        let x = after_sweep site as_of now c in
        let told = notices_of site as_of c in
        let later : AllKnown site rest = λ e m o. known e (Memᴰ.tail m) o in
        let moved : AreDistinct (map name_of ((before ++ x ∷ []) ++ rest)) =
          subst AreDistinct (sym (names-middle before x c rest (name-after_sweep c))) distinct in
        let tail = sweep_names-rest (before ++ x ∷ []) rest (n ++ told) moved later in
        let joined = append_assoc before (x ∷ []) (map (after_sweep site as_of now) rest) in
        let here = append_assoc before (x ∷ []) rest in
        let sent = append_assoc n told (concat_map (notices_of site as_of) rest) in
        let tidy = rw (here, joined, sent) at tail in
        elim (Bool-cases c.open_flag) [
          | inl opened ↦
              let (d, e) = known c (Memᴰ.head refl) opened in
              rw (open_names-open c rest opened, one_round c d opened e before rest n distinct)
                (rw tidy)
          | inr shut ↦
              let (names, same, silent, missed) = shut-lem c rest shut in
              rw (names, same, silent, missed) (rw (same, silent, append_nil n) at tidy)
        ]

    -- Where the clocks' names are distinct, every open clock's definition exists, and Breached is
    -- configured as not open by `status` alone, the sweep succeeds. It turns every open clock past
    -- its target to Breached and closed, stamps every other open clock past its warning that was not
    -- warned, leaves the rest, sends the notices of these clocks in order, and returns the names of
    -- the breached ones.
    pub sweep-after :
        (st : Store)
        → AreDistinct (map name_of st.clocks)
        → AllKnown site st.clocks
        → sweep site st as_of now
          ≡ ok (
            store_at
                (map (after_sweep site as_of now) st.clocks)
                (st.notices ++ concat_map (notices_of site as_of) st.clocks),
            concat_map (hit as_of) st.clocks,
          )
    unfolding sweep open_names
    sweep-after st distinct known = sweep_names-rest [] st.clocks st.notices distinct known

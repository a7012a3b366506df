-- ===== src/Clocks/Sweeping/Again.antt =====
-- Sweeping twice: a sweep leaves nothing for the next one of the same time.
use enterprise_management.Base.{
  ok-injective, mem-map, get, ℕ, ◌≡◌, refl, ap, ◌∙◌, sym, Option, none, some, Bool, true, false,
  ◌&&◌, List, [], ◌∷◌, ◌++◌, map, arith, ok, AreDistinct, Bool-cases, inl, inr, append_nil,
}
use enterprise_management.StateFlags.{Flags, ByValue, is_open, get_flag_map}
use enterprise_management.Clocks.{Definition, Clock, Site, Store, sla_clock, status_field, breached}
use enterprise_management.Clocks.Sweep.{sweep}
use enterprise_management.Clocks.Sweeping.{
  definition_of, is_overdue, is_due_under, is_warned, was_breached, was_warned, after_sweep,
  notices_of, concat_map, name_of, hit, store_at, AllKnown, sweep-after, name-after_sweep,
}

module _ (site : Site) (by_value : ByValue) (flags : Flags)
    (by_status : get_flag_map site.flag_rows sla_clock ≡ (status_field, by_value) ∷ [])
    (configured : get breached by_value ≡ some flags) (closes : flags is_open ≡ false) where
  module _ (as_of now later : ℕ) where
    abbrev IsSettled : Clock → Type 0
    IsSettled c =
        (after_sweep site as_of later c ≡ c) × (notices_of site as_of c ≡ []) × (hit as_of c ≡ [])

    untouched :
        (c : Clock) → is_overdue as_of c ≡ false → is_warned site as_of c ≡ false → IsSettled c
    unfolding after_sweep notices_of
    untouched c in_time quiet = rw (in_time, quiet) (refl, refl, refl)

    warned_once :
        (c : Clock) (o : Option Definition) → is_due_under site as_of (was_warned c now) o ≡ false
    warned_once c none = refl
    warned_once c (some d) = ground arith

    &&-false : (b : Bool) → (b && false) ≡ false
    &&-false b = ground arith

    settled : (c : Clock) → IsSettled (after_sweep site as_of now c)
    unfolding after_sweep
    settled c = elim (Bool-cases (is_overdue as_of c)) [
      | inl late ↦ rw late (untouched (was_breached c now) refl refl)
      | inr in_time ↦ elim (Bool-cases (is_warned site as_of c)) [
        | inl due ↦
            rw (in_time, due)
              (untouched (was_warned c now) in_time
                (rw (warned_once c (definition_of site c)) (&&-false _)))
        | inr quiet ↦ rw (in_time, quiet) (untouched c in_time quiet)
      ]
    ]

    map-settled :
        (clocks : List Clock)
        → (let swept = map (after_sweep site as_of now) clocks in
            (map (after_sweep site as_of later) swept ≡ swept)
            × (concat_map (notices_of site as_of) swept ≡ [])
            × (concat_map (hit as_of) swept ≡ []))
    map-settled [] = (refl, refl, refl)
    map-settled (c ∷ clocks) =
        let (same, silent, missed) = settled c in
        let (rest, quiet, none_hit) = map-settled clocks in
        (rw (same, rest), rw (silent, quiet), rw (missed, none_hit))

    map-names :
        (clocks : List Clock)
        → map name_of (map (after_sweep site as_of now) clocks) ≡ map name_of clocks
    map-names [] = refl
    map-names (c ∷ clocks) = rw (
      name-after_sweep site by_value flags by_status configured closes as_of now c,
      map-names clocks,
    )

    after_sweep-keeps :
        (c : Clock)
        → (definition_of site (after_sweep site as_of now c) ≡ definition_of site c)
          × ((after_sweep site as_of now c).open_flag ≡ true → c.open_flag ≡ true)
    unfolding after_sweep
    after_sweep-keeps c = elim (Bool-cases (is_overdue as_of c)) [
      | inl late ↦ rw late (refl, λ o. absurd (cc))
      | inr in_time ↦ elim (Bool-cases (is_warned site as_of c)) [
        | inl due ↦ rw (in_time, due) (refl, λ o. o)
        | inr quiet ↦ rw (in_time, quiet) (refl, λ o. o)
      ]
    ]

    known-after :
        (clocks : List Clock)
        → AllKnown site clocks
        → AllKnown site (map (after_sweep site as_of now) clocks)
    known-after clocks known x m opened =
        let (c, n, e) = mem-map (after_sweep site as_of now) clocks m in
        let (same, was_open) = after_sweep-keeps c in
        let (d, found) = known c n (was_open (rw e opened)) in (d, rw (← e) (same ∙ found))

    -- Where the clocks' names are distinct, every open clock's definition exists, and Breached is
    -- configured as not open by `status` alone, a second sweep of the same time, after one that
    -- succeeded, succeeds, changes no clock, sends nothing and breaches nothing.
    pub sweep-again :
        (st st' : Store) {names : List ℕ}
        → AreDistinct (map name_of st.clocks)
        → AllKnown site st.clocks
        → sweep site st as_of now ≡ ok (st', names)
        → sweep site st' as_of later ≡ ok (st', [])
    sweep-again st st' distinct known h =
        let swept = map (after_sweep site as_of now) st.clocks in
        let first = store_at swept (st.notices ++ concat_map (notices_of site as_of) st.clocks) in
        let e : st' ≡ first =
          ap (λ p. p.0)
            (ok-injective (
              sym h
              ∙ sweep-after site by_value flags by_status configured closes as_of now st distinct
                  known)) in
        let (same, silent, none_hit) = map-settled st.clocks in
        rw e (
          sweep-after site by_value flags by_status configured closes as_of later first
            (rw (map-names st.clocks) distinct) (known-after st.clocks known)
          ∙ rw (same, silent, none_hit, append_nil first.notices))

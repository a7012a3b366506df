-- ===== src/Approvals/Turns.antt =====
-- The order of a route: which steps a step waits for, and that some open step may always go ahead.
use enterprise_management.Base.{
  ℕ, zero, suc, ◌<◌, ◌≡◌, refl, ◌∙◌, ◌≢◌, ◌⊎◌, inl, inr, ◌↔◌, true, false, List, [], ◌∷◌, Memᴰ,
  Bool-cases, same→eq, same_refl, is_empty, mem-filter, filter-mem, sort_by-mem, mem-sort_by, arith,
}
use enterprise_management.Approvals.{
  Decision, Store, is_parallel, is_earlier_open, in_cycle_of, waiting_on, is_turn,
}

-- `r` is an open step ahead of `row` in the same approval cycle of the same record.
pub record IsAhead (row r : Decision) : Type 0 where
  pub subject_doctype : r.subject_doctype ≡ row.subject_doctype
  pub subject_name : r.subject_name ≡ row.subject_name
  pub still_open : r.open_flag ≡ true
  pub not_cancelled : r.docstatus < 2
  pub earlier : r.step_sequence < row.step_sequence
  pub another : r.name ≢ row.name
  pub same_cycle : r.based_on_version ≡ row.based_on_version

earlier-IsAhead :
    (row r : Decision) → is_earlier_open row r ≡ true → in_cycle_of row r ≡ true → IsAhead row r
earlier-IsAhead row r e c = record {
  subject_doctype = ground arith;
  subject_name = ground arith;
  still_open = ground arith;
  not_cancelled = ground arith;
  earlier = ground arith;
  another = ground arith;
  same_cycle = same→eq r.based_on_version row.based_on_version c;
}

IsAhead-earlier :
    (row r : Decision) → IsAhead row r → (is_earlier_open row r ≡ true) × (in_cycle_of row r ≡ true)
IsAhead-earlier row r a = (ground arith, rw a.same_cycle (same_refl row.based_on_version))

-- A step that is not parallel waits exactly for the open steps ahead of it.
pub waiting_on_iff :
    (store : Store) (row r : Decision)
    → is_parallel row.mode ≡ false
    → Memᴰ r (waiting_on store row) ↔ (Memᴰ r store.decisions × IsAhead row r)
unfolding waiting_on
waiting_on_iff store row r p = rw p (
  λ m.
      let (m', c) = mem-filter (in_cycle_of row) _ m in
      let (n, e) = mem-filter (is_earlier_open row) store.decisions (mem-sort_by _ _ m') in
      (n, earlier-IsAhead row r e c),
  λ (m, a).
      let (e, c) = IsAhead-earlier row r a in
      filter-mem (in_cycle_of row) (sort_by-mem _ (filter-mem (is_earlier_open row) m e)) c,
)

waits : (xs : List Decision) → (is_empty xs ≡ true) ⊎ ((r : Decision) × Memᴰ r xs)
waits [] = inl refl
waits (x ∷ xs) = inr (x, Memᴰ.head refl)

-- The step may be decided now, or a step that it waits for may.
pub record Next (store : Store) (row r : Decision) : Type 0 where
  pub listed : Memᴰ r store.decisions
  pub still_open : r.open_flag ≡ true
  pub subject_doctype : r.subject_doctype ≡ row.subject_doctype
  pub subject_name : r.subject_name ≡ row.subject_name
  pub same_cycle : r.based_on_version ≡ row.based_on_version
  pub turn : is_turn store r ≡ true

now_due :
    {store : Store} {row : Decision}
    → Memᴰ row store.decisions
    → row.open_flag ≡ true
    → is_turn store row ≡ true
    → Next store row row
now_due m o t = record {
  listed = m;
  still_open = o;
  subject_doctype = refl;
  subject_name = refl;
  same_cycle = refl;
  turn = t;
}

Next-ahead :
    {store : Store} {row r q : Decision} → IsAhead row r → Next store r q → Next store row q
Next-ahead a n = record {
  listed = n.listed;
  still_open = n.still_open;
  subject_doctype = n.subject_doctype ∙ a.subject_doctype;
  subject_name = n.subject_name ∙ a.subject_name;
  same_cycle = n.same_cycle ∙ a.same_cycle;
  turn = n.turn;
}

never_blocks_within :
    (bound : ℕ) (store : Store) (row : Decision)
    → row.step_sequence < bound
    → Memᴰ row store.decisions
    → row.open_flag ≡ true
    → (r : Decision) × Next store row r
unfolding is_turn
never_blocks_within zero store row h m o = absurd (omega arith)
never_blocks_within (suc bound) store row h m o = elim (Bool-cases (is_parallel row.mode)) [
  | inl p ↦ (row, now_due m o (unfold waiting_on in rw p))
  | inr p ↦ elim (waits (waiting_on store row)) [
    | inl idle ↦ (row, now_due m o idle)
    | inr (r, n) ↦
        let (listed, ahead) = (waiting_on_iff store row r p).0 n in
        let (q, found) =
          never_blocks_within bound store r (omega (arith, ahead.earlier)) listed
            ahead.still_open in
        (q, Next-ahead ahead found)
  ]
]

-- An approval cycle with an open step never blocks: some open step of it may be decided now.
pub never_blocks :
    (store : Store) (row : Decision)
    → Memᴰ row store.decisions
    → row.open_flag ≡ true
    → (r : Decision) × Next store row r
never_blocks store row m o = never_blocks_within (suc row.step_sequence) store row (omega arith) m o

-- ===== src/Matters/Pathway/Rows.antt =====
-- The rows of a pathway: what routing adds, and what the check of a pathway lets through.
use enterprise_management.Base.{
  inactive_forum, duplicate_destination, ℕ, ◌≡◌, refl, ap, sym, ◌∙◌, subst, inl, inr, Option, Bool,
  true, false, not, List, [], ◌∷◌, ◌++◌, Memᴰ, map, arith, if◌then◌else◌, uncons, Bool-cases,
  ==_refl, contains, append_assoc, append_nil, if-true, if-false, AreDistinct, All, not-false, ok,
  >>=-eq-ok, throw_if-eq-ok, ok-injective,
}
use enterprise_management.Matters.{ForumLink}
use enterprise_management.Matters.Matrix.{Destination}
use enterprise_management.Matters.Site.{Governance}
use enterprise_management.Matters.Pathway.{
  forum_of, forum_is_selectable, proposed_row, add_destinations, refreshed, check_rows,
}

-- The forums of the rows.
abbrev pub forums_of : List ForumLink → List ℕ
forums_of rows = map forum_of rows

contains-forums_of_append :
    (xs ys : List ForumLink) (f : ℕ)
    → contains (forums_of xs) f ≡ true
    → contains (forums_of (xs ++ ys)) f ≡ true
contains-forums_of_append [] ys f h = cc
contains-forums_of_append (x ∷ xs) ys f h = ground (arith, contains-forums_of_append xs ys f)

contains-forums_of_last :
    (xs : List ForumLink) (r : ForumLink) → contains (forums_of (xs ++ r ∷ [])) (forum_of r) ≡ true
contains-forums_of_last [] r = ground (arith, ==_refl (forum_of r))
contains-forums_of_last (x ∷ xs) r = ground (arith, contains-forums_of_last xs r)

-- Routing only appends, and the pathway then has each destination.
pub record Extends (rows rows' : List ForumLink) (forums : List Destination) : Type 0 where
  pub added : List ForumLink
  pub appended : rows' ≡ rows ++ added
  pub reached :
      (d : Destination) → Memᴰ d forums → contains (forums_of rows') d.governance_forum ≡ true

module _ (governance : Option Governance) where
  add_destinations-keeps :
      (rows : List ForumLink) (forums : List Destination) (rule_code f : ℕ)
      → contains (forums_of rows) f ≡ true
      → contains (forums_of (add_destinations governance rows forums rule_code)) f ≡ true
  unfolding add_destinations
  add_destinations-keeps rows [] rule_code f h = h
  add_destinations-keeps rows (d ∷ forums) rule_code f h =
      add_destinations-keeps
        (if contains (forums_of rows) d.governance_forum
          then rows
          else rows ++ proposed_row governance d rule_code ∷ [])
        forums rule_code f (kept (contains (forums_of rows) d.governance_forum))
    where
      kept :
          (b : Bool)
          → contains
              (forums_of (if b then rows else rows ++ proposed_row governance d rule_code ∷ []))
              f
            ≡ true
      kept true = h
      kept false = contains-forums_of_append rows _ f h

  also_reached :
      (rows : List ForumLink) (d : Destination) (forums : List Destination) (rule_code : ℕ)
      → contains (forums_of rows) d.governance_forum ≡ true
      → (d' : Destination) → Memᴰ d' (d ∷ forums)
      → ((d'' : Destination)
          → Memᴰ d'' forums
          → contains
              (forums_of (add_destinations governance rows forums rule_code))
              d''.governance_forum
            ≡ true)
      → contains (forums_of (add_destinations governance rows forums rule_code)) d'.governance_forum
        ≡ true
  also_reached rows d forums rule_code h d' mem later = elim (uncons mem) [
    | inl e ↦ add_destinations-keeps rows forums rule_code d'.governance_forum (
        subst (λ (z : ℕ). contains (forums_of rows) z ≡ true)
          (sym (ap (λ (z : Destination). z.governance_forum) e)) h)
    | inr mem' ↦ later d' mem'
  ]

  pub add_destinations-Extends :
      (rows : List ForumLink) (forums : List Destination) (rule_code : ℕ)
      → Extends rows (add_destinations governance rows forums rule_code) forums
  unfolding add_destinations
  add_destinations-Extends rows [] rule_code = record {
    added = [];
    appended = sym (append_nil rows);
    reached = λ d mem. elim mem [ ];
  }
  add_destinations-Extends rows (d ∷ forums) rule_code =
      elim (Bool-cases (contains (forums_of rows) d.governance_forum)) [
        | inl e ↦
            let rest = add_destinations-Extends rows forums rule_code in
            subst
              (λ (z : List ForumLink).
                Extends rows (add_destinations governance z forums rule_code) (d ∷ forums))
              (sym (if-true _ _ e))
              (record {
                added = rest.added;
                appended = rest.appended;
                reached = λ d' mem. also_reached rows d forums rule_code e d' mem rest.reached;
              })
        | inr e ↦
            let rows' : List ForumLink = rows ++ proposed_row governance d rule_code ∷ [] in
            let rest = add_destinations-Extends rows' forums rule_code in
            subst
              (λ (z : List ForumLink).
                Extends rows (add_destinations governance z forums rule_code) (d ∷ forums))
              (sym (if-false _ _ e))
              (record {
                added = proposed_row governance d rule_code ∷ rest.added;
                appended = rest.appended ∙ append_assoc rows _ rest.added;
                reached = λ d' mem.
                    also_reached rows' d forums rule_code
                      (contains-forums_of_last rows (proposed_row governance d rule_code)) d' mem
                      rest.reached;
              })
      ]

  -- What the check of a pathway has shown of a row, its columns brought up to date.
  pub record IsOpenTo (r : ForumLink) : Type 0 where
    pub selectable : forum_is_selectable governance (forum_of r) ≡ true
    pub current : refreshed governance r ≡ r

  -- A row that passes, before rows that pass.
  check_rows-cons :
      (seen : List ℕ) (r : ForumLink) (rows : List ForumLink) {rows' : List ForumLink}
      → check_rows governance seen (r ∷ rows) ≡ ok rows'
      → (rest : List ForumLink) × (forum_is_selectable governance (forum_of r) ≡ true)
        × (contains seen (forum_of r) ≡ false)
        × (check_rows governance (forum_of r ∷ seen) rows ≡ ok rest)
        × (refreshed governance r ∷ rest ≡ rows')
  unfolding check_rows
  check_rows-cons seen r rows h =
      let (fresh, h1) = throw_if-eq-ok (contains seen (forum_of r)) duplicate_destination _ h in
      let (open_, h2) =
        throw_if-eq-ok (not (forum_is_selectable governance (forum_of r))) inactive_forum _ h1 in
      let (rest, e, last) =
        >>=-eq-ok (check_rows governance (forum_of r ∷ seen) rows)
          (λ rest. ok (refreshed governance r ∷ rest)) h2 in
      (rest, not-false _ open_, fresh, e, ok-injective last)

  forums_of-refreshed :
      (rows : List ForumLink) → forums_of (map (refreshed governance) rows) ≡ forums_of rows
  forums_of-refreshed [] = refl
  forums_of-refreshed (r ∷ rows) = ap (λ (z : List ℕ). forum_of r ∷ z) (forums_of-refreshed rows)

  pub check_rows-forums :
      (seen : List ℕ) (rows : List ForumLink) {rows' : List ForumLink}
      → check_rows governance seen rows ≡ ok rows'
      → rows' ≡ map (refreshed governance) rows
  unfolding check_rows
  check_rows-forums seen [] h = sym (ok-injective h)
  check_rows-forums seen (r ∷ rows) h =
      let (rest, selectable, fresh, e, last) = check_rows-cons seen r rows h in
      sym last
      ∙ ap (λ (z : List ForumLink). refreshed governance r ∷ z)
          (check_rows-forums (forum_of r ∷ seen) rows e)

  check_rows-unseen :
      (seen : List ℕ) (rows : List ForumLink) {rows' : List ForumLink} (f : ℕ)
      → check_rows governance seen rows ≡ ok rows'
      → contains seen f ≡ true
      → contains (forums_of rows) f ≡ false
  unfolding check_rows
  check_rows-unseen seen [] f h e = refl
  check_rows-unseen seen (r ∷ rows) f h e =
      let (rest, selectable, fresh, e', last) = check_rows-cons seen r rows h in
      ground (arith, check_rows-unseen (forum_of r ∷ seen) rows f e')

  pub check_rows-AreDistinct :
      (seen : List ℕ) (rows : List ForumLink) {rows' : List ForumLink}
      → check_rows governance seen rows ≡ ok rows'
      → AreDistinct (forums_of rows') × All IsOpenTo rows'
  unfolding check_rows
  check_rows-AreDistinct seen [] h = rw (← ok-injective h) (tt, tt)
  check_rows-AreDistinct seen (r ∷ rows) h =
      let (rest, selectable, fresh, e, last) = check_rows-cons seen r rows h in
      let (distinct, all_open) = check_rows-AreDistinct (forum_of r ∷ seen) rows e in
      let once =
        check_rows-unseen (forum_of r ∷ seen) rows (forum_of r) e
          (rw (==_refl (forum_of r)) refl) in
      subst (λ (z : List ForumLink). AreDistinct (forums_of z) × All IsOpenTo z) last
        (
          (forums_kept rows e once, distinct),
          (record { selectable = selectable; current = refl }, all_open),
        )
    where
      forums_kept :
          (rows : List ForumLink) {rest : List ForumLink}
          → check_rows governance (forum_of r ∷ seen) rows ≡ ok rest
          → contains (forums_of rows) (forum_of r) ≡ false
          → contains (forums_of rest) (forum_of r) ≡ false
      forums_kept rows e once =
          subst (λ (z : List ForumLink). contains (forums_of z) (forum_of r) ≡ false)
            (sym (check_rows-forums (forum_of r ∷ seen) rows e))
            (ap (λ (z : List ℕ). contains z (forum_of r)) (forums_of-refreshed rows) ∙ once)

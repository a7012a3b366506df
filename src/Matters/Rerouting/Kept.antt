-- ===== src/Matters/Rerouting/Kept.antt =====
-- What a new pathway keeps: the forums that the matrix routes to, and the trace of each kept row.
use enterprise_management.Base.{
  bool_eq, read-name, ℕ, ◌≡◌, refl, ap, sym, ◌∙◌, subst, inl, inr, Option, none, some, Bool, true,
  false, not, ◌&&◌, List, [], ◌∷◌, ◌++◌, Memᴰ, map-mem, contains, contains-mem, mem-contains,
  append_nil, filter, is_empty, is_some, or_else, not-false, Bool-cases, ==_iff, ◌==◌, arith, ok,
  >>=-eq-ok, >>-eq-ok, throw_if-eq-ok, ok-injective, routed_by_the_matrix, unknown_forum,
  unknown_role,
}
use enterprise_management.Matters.{EscalationMatter, ForumLink}
use enterprise_management.Matters.Matrix.{Match, match_rule}
use enterprise_management.Matters.Template.Conforms.{none-filter}
use enterprise_management.Matters.Site.{Site, Session, Governance}
use enterprise_management.Matters.Pathway.{
  decision_role, forum_of, forum_named, refreshed, route, route_if,
}
use enterprise_management.Matters.Pathway.Rows.{
  forums_of, add_destinations-Extends, check_rows-forums,
}
use enterprise_management.Matters.Saving.{
  World, name_of, matter_named, impact_changed, saving, save,
}
use enterprise_management.Matters.Saving.Passed.{own-route_if, entered, validate-Passed}
use enterprise_management.Matters.Saving.Stored.{Saved, save-Saved}
use enterprise_management.Matters.Acting.{change_pathway, load_matter, authorise}
use enterprise_management.Matters.Acting.Steps.{Loaded, load_matter-Loaded}
use enterprise_management.Matters.Rerouting.{
  Wanted, row_at, pathway_roles, proposed_forums, requested, kept_column, wanted_row, wanted_rows,
  locked, set_pathway,
}

-- A row of the list for the forum, made from the row that the pathway had for it, if any.
abbrev RowFor : List ForumLink → List ForumLink → ℕ → Type 0
RowFor existing rows f =
    (r : ForumLink) × Memᴰ r rows × (role : ℕ) × (r ≡ wanted_row existing f role)

in_first : {A : Type 0} {a : A} (xs ys : List A) → Memᴰ a xs → Memᴰ a (xs ++ ys)
in_first [] ys m = elim m [ ]
in_first (x ∷ xs) ys (Memᴰ.head e) = Memᴰ.head e
in_first (x ∷ xs) ys (Memᴰ.tail m) = Memᴰ.tail (in_first xs ys m)

module _ (site : Site) (existing : List ForumLink) where
  row_for :
      (o : Option ℕ) (role : Option ℕ) (wanted : List Wanted) {rows : List ForumLink}
      → ((f : ℕ) (rest : List ForumLink)
          → wanted_rows site existing wanted ≡ ok rest
          → contains (requested wanted) f ≡ true
          → RowFor existing rest f)
      → wanted_rows site existing
          (record { governance_forum = o; role_in_escalation = role } ∷ wanted)
        ≡ ok rows
      → (f : ℕ)
      → contains (requested (record { governance_forum = o; role_in_escalation = role } ∷ wanted)) f
        ≡ true
      → RowFor existing rows f
  unfolding wanted_rows
  row_for none role wanted {rows} later h f asked = later f rows h asked
  row_for (some g) role wanted later h f asked =
      let (known, h1) =
        throw_if-eq-ok (not (is_some (forum_named site.governance g))) unknown_forum _ h in
      let (playable, h2) =
        throw_if-eq-ok (not (contains pathway_roles (or_else role decision_role))) unknown_role _
          h1 in
      let (rest, e, last) = >>=-eq-ok (wanted_rows site existing wanted) _ h2 in
      subst (λ (z : List ForumLink). RowFor existing z f) (ok-injective last)
        (elim (Bool-cases (g == f)) [
          | inl same ↦ (
            wanted_row existing g (or_else role decision_role),
            Memᴰ.head refl,
            or_else role decision_role,
            ap (λ (z : ℕ). wanted_row existing z (or_else role decision_role))
                ((==_iff g f).0 same),
          )
          | inr other ↦
              let (r, mem, role_, made) = later f rest e (ground arith) in
              (r, Memᴰ.tail mem, role_, made)
        ])

  wanted_rows-RowFor :
      (wanted : List Wanted) (f : ℕ) {rows : List ForumLink}
      → wanted_rows site existing wanted ≡ ok rows
      → contains (requested wanted) f ≡ true
      → RowFor existing rows f
  wanted_rows-RowFor [] f h asked = absurd (cc)
  wanted_rows-RowFor (w ∷ wanted) f {rows} h asked =
      row_for w.governance_forum w.role_in_escalation wanted
        (λ g rest e a. wanted_rows-RowFor wanted g e a) h f asked

route_if-rows :
    (governance : Option Governance) (m : EscalationMatter) (found : Option Match)
    → (added : List ForumLink) × ((route_if governance m found).governance_forums
        ≡ m.governance_forums ++ added)
unfolding route
route_if-rows governance m none = ([], sym (append_nil m.governance_forums))
route_if-rows governance m (some found) =
    let x = add_destinations-Extends governance m.governance_forums found.forums found.rule_code in
    (x.added, x.appended)

module _ (site : Site) (w : World) (by : Session) (m0 : EscalationMatter) where
  -- A save that does not change the impact on a material entity stamps no row.
  unstamped :
      {w' : World} {m' : EscalationMatter} (old : EscalationMatter)
      (s : Saved site w by true m0 w' m')
      → matter_named w m0.name ≡ some old
      → old.material_entity_impact ≡ m0.material_entity_impact
      → m'.governance_forums ≡ s.checked.governance_forums
  unstamped old s e same = elim s.update.rows [
    | inl kept ↦ kept
    | inr (changed, reached, now, stamped) ↦ absurd (not_changed changed)
  ]
    where
      impact : s.checked.material_entity_impact ≡ m0.material_entity_impact
      impact =
          ap (λ (z : EscalationMatter). z.material_entity_impact)
            (validate-Passed site w.closures by (saving site w m0 true) m0 s.passed).kept
          ∙ ap (λ (z : EscalationMatter). z.material_entity_impact)
              (own-route_if site.governance (entered m0)
                (validate-Passed site w.closures by (saving site w m0 true) m0 s.passed).found)

      quiet : (b c : Bool) → b ≡ c → (c && not (bool_eq b c)) ≡ true → ⊥
      quiet b c e h = ground arith

      not_changed : impact_changed (matter_named w m0.name) s.checked ≡ true → ⊥
      not_changed h =
          quiet old.material_entity_impact s.checked.material_entity_impact (same ∙ sym impact)
            (subst (λ (o : Option EscalationMatter). impact_changed o s.checked ≡ true) e h)

  -- A row that a matter is saved with is then on its pathway, brought up to date.
  Saved-row :
      {w' : World} {m' : EscalationMatter} (old : EscalationMatter) (r : ForumLink)
      (s : Saved site w by true m0 w' m')
      → matter_named w m0.name ≡ some old
      → old.material_entity_impact ≡ m0.material_entity_impact
      → Memᴰ r m0.governance_forums
      → Memᴰ (refreshed site.governance r) m'.governance_forums
  Saved-row {w'} {m'} old r s e same mem =
      let p = validate-Passed site w.closures by (saving site w m0 true) m0 s.passed in
      let (added, extended) = route_if-rows site.governance (entered m0) p.found in
      let rows = check_rows-forums site.governance [] _ p.checked in
      subst (λ (z : List ForumLink). Memᴰ (refreshed site.governance r) z)
        (sym (unstamped old s e same ∙ rows))
        (map-mem (refreshed site.governance) (
          subst (λ (z : List ForumLink). Memᴰ r z) (sym extended)
            (in_first m0.governance_forums added mem)))

-- What a new pathway has been shown to be.
pub record Rerouted (site : Site) (w : World) (by : Session) (name : ℕ) (wanted : List Wanted)
    (w' : World) (m' : EscalationMatter) : Type 0 where
  pub before : EscalationMatter
  pub loaded : Loaded site w by name before
  pub authorised : authorise site before change_pathway by.user ≡ ok tt
  pub found : Option Match
  pub fired : match_rule site.int_of site.matrices by.today before ≡ ok found
  pub rows : List ForumLink
  pub saved : Saved site w by true (record before { governance_forums = rows }) w' m'
  pub asked_for :
      (f : ℕ)
      → contains (requested wanted) f ≡ true
      → (r : ForumLink) × Memᴰ r m'.governance_forums
        × (forum_of r ≡ f)
        × (r.proposed_by_rule
            ≡ kept_column (row_at before.governance_forums f) (λ o. o.proposed_by_rule))
        × (r.notified_on ≡ kept_column (row_at before.governance_forums f) (λ o. o.notified_on))
        × (r.decision_motion
            ≡ kept_column (row_at before.governance_forums f) (λ o. o.decision_motion))
  pub routed_to :
      (f : ℕ)
      → contains (forums_of before.governance_forums) f ≡ true
      → contains (proposed_forums found) f ≡ true
      → contains (forums_of m'.governance_forums) f ≡ true

requested_if_locked :
    (existing : List ForumLink) (wanted : List Wanted) (proposed : List ℕ) (f : ℕ)
    → is_empty (
        filter
          (λ g. not (contains (requested wanted) g) && contains proposed g)
          (forums_of existing))
      ≡ true
    → contains (forums_of existing) f ≡ true
    → contains proposed f ≡ true
    → contains (requested wanted) f ≡ true
requested_if_locked existing wanted proposed f free had routed =
    let h =
      none-filter (λ g. not (contains (requested wanted) g) && contains proposed g)
        (forums_of existing) free f (contains-mem (forums_of existing) f had) in
    quiet (contains (requested wanted) f) (contains proposed f) h routed
  where
    quiet : (a b : Bool) → (not a && b) ≡ false → b ≡ true → a ≡ true
    quiet a b h e = ground arith

-- A pathway that a person sets has each forum that was asked for, in a row that keeps the rule that
-- proposed it, when its forum was told and the motion that decided it, as the pathway had them; and
-- of the forums that were on the pathway it has each one that the matrix routes the matter to.
pub set_pathway-Rerouted :
    (site : Site) (w : World) (by : Session) (name : ℕ) (wanted : List Wanted) {w' : World}
    {m' : EscalationMatter}
    → set_pathway site w by name wanted ≡ ok (w', m')
    → Rerouted site w by name wanted w' m'
unfolding set_pathway
set_pathway-Rerouted site w by name wanted {w'} {m'} h =
    let (m, e, h1) = >>=-eq-ok (load_matter site w name by.user) _ h in
    let (authorised, h2) = >>-eq-ok (authorise site m change_pathway by.user) _ h1 in
    let (found, fired, h3) = >>=-eq-ok (match_rule site.int_of site.matrices by.today m) _ h2 in
    let (free, h4) =
      throw_if-eq-ok
        (not (is_empty (locked site m.governance_forums wanted (proposed_forums found))))
        routed_by_the_matrix _ h3 in
    let (rows, made, h5) =
      >>=-eq-ok (wanted_rows site m.governance_forums wanted)
        (λ rows. save site w by true (record m { governance_forums = rows })) h4 in
    let m0 : EscalationMatter = record m { governance_forums = rows } in
    let s = save-Saved site w by true m0 h5 in
    let loaded = load_matter-Loaded site w by name e in
    let here =
      subst (λ (z : ℕ). matter_named w z ≡ some m)
        (sym (read-name name_of name w.matters loaded.stored_as)) loaded.stored_as in
    let row : (f : ℕ) → contains (requested wanted) f ≡ true → RowFor m.governance_forums rows f =
      λ f asked. wanted_rows-RowFor site m.governance_forums wanted f made asked in
    record {
      before = m;
      loaded = loaded;
      authorised = authorised;
      found = found;
      fired = fired;
      rows = rows;
      saved = s;
      asked_for = λ f asked.
          let (r, mem, role, same) = row f asked in
          (
            refreshed site.governance r,
            Saved-row site w by m0 m r s here refl mem,
            ap forum_of same,
            ap (λ (z : ForumLink). z.proposed_by_rule) same,
            ap (λ (z : ForumLink). z.notified_on) same,
            ap (λ (z : ForumLink). z.decision_motion) same,
          );
      routed_to = λ f had routed.
          let asked =
            requested_if_locked m.governance_forums wanted (proposed_forums found) f
              (not-false _ free) had routed in
          let (r, mem, role, same) = row f asked in
          let on = map-mem forum_of (Saved-row site w by m0 m r s here refl mem) in
          subst (λ (z : ℕ). contains (forums_of m'.governance_forums) z ≡ true) (ap forum_of same)
            (mem-contains (forums_of m'.governance_forums) (forum_of r) on);
    }

-- ===== src/Matters/Rerouting.antt =====
-- escalation/routing.py `set_pathway`: a person replaces the forums on the pathway of a matter.
pub mod Kept
use enterprise_management.Base.{
  ℕ, Option, none, some, true, not, ◌&&◌, List, [], ◌∷◌, map, if◌then◌else◌, ◌==◌, is_some, or_else,
  contains, filter, is_empty, Result, ok, throw_if, routed_by_the_matrix, unknown_forum,
  unknown_role, ◌>>=◌, ◌>>◌,
}
use enterprise_management.Matters.{EscalationMatter, ForumLink}
use enterprise_management.Matters.Matrix.{Destination, Match, match_rule}
use enterprise_management.Matters.Site.{Site, Session}
use enterprise_management.Matters.Pathway.{decision_role, forum_of, forum_named}
use enterprise_management.Matters.Saving.{World, save}
use enterprise_management.Matters.Acting.{change_pathway, load_matter, authorise}

-- An entry of the request.
pub record Wanted : Type 0 where
  pub governance_forum : Option ℕ
  pub role_in_escalation : Option ℕ

-- `{row.governance_forum: row for row in rows}.get(forum)`: the last of a forum's rows.
unfoldable pub row_at : List ForumLink → ℕ → Option ForumLink
row_at [] forum = none
row_at (r ∷ rows) forum =
    let later = row_at rows forum in
    if is_some later then later else if forum_of r == forum then some r else none

-- The options of `role_in_escalation`.
abbrev pub pathway_roles : List ℕ
pathway_roles = decision_role ∷ 2 ∷ 3 ∷ []

abbrev pub proposed_forums : Option Match → List ℕ
proposed_forums none = []
proposed_forums (some found) = map (λ (d : Destination). d.governance_forum) found.forums

abbrev pub requested : List Wanted → List ℕ
requested [] = []
requested (w ∷ wanted) =
    let rest = requested wanted in elim w.governance_forum [ none ↦ rest | some f ↦ f ∷ rest ]

abbrev pub kept_column : Option ForumLink → (ForumLink → Option ℕ) → Option ℕ
kept_column none column = none
kept_column (some r) column = column r

abbrev pub wanted_row : List ForumLink → ℕ → ℕ → ForumLink
wanted_row existing forum role =
    let kept = row_at existing forum in
    record {
      governance_forum = forum;
      role_in_escalation = role;
      escalation_protocol = none;
      escalation_threshold = none;
      proposed_by_rule = kept_column kept (λ r. r.proposed_by_rule);
      notified_on = kept_column kept (λ r. r.notified_on);
      decision_motion = kept_column kept (λ r. r.decision_motion);
    }

module _ (site : Site) where
  unfoldable pub wanted_rows : List ForumLink → List Wanted → Result (List ForumLink)
  wanted_rows existing [] = ok []
  wanted_rows existing (w ∷ wanted) =
      let rest = wanted_rows existing wanted in
      elim w.governance_forum [
        | none ↦ rest
        | some forum ↦ do
          throw_if (not (is_some (forum_named site.governance forum))) unknown_forum
          throw_if (not (contains pathway_roles (or_else w.role_in_escalation decision_role)))
              unknown_role
          rows ← rest
          ok (wanted_row existing forum (or_else w.role_in_escalation decision_role) ∷ rows)
      ]

  -- The forums that the request takes off the pathway and the matrix routes the matter to.
  abbrev pub locked : List ForumLink → List Wanted → List ℕ → List ℕ
  locked existing wanted proposed =
      filter (λ f. not (contains (requested wanted) f) && contains proposed f)
        (map forum_of existing)

  unfoldable pub set_pathway : World → Session → ℕ → List Wanted → Result (World × EscalationMatter)
  unfolding load_matter authorise wanted_rows
  set_pathway w by name wanted = do
    m ← load_matter site w name by.user
    authorise site m change_pathway by.user
    found ← match_rule site.int_of site.matrices by.today m
    throw_if (not (is_empty (locked m.governance_forums wanted (proposed_forums found))))
        routed_by_the_matrix
    rows ← wanted_rows m.governance_forums wanted
    save site w by true (record m { governance_forums = rows })

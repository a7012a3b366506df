-- ===== src/Matters/Notices.antt =====
-- escalation/resolution.py: the people and the forums that a notice about a matter reaches.
use enterprise_management.Base.{
  ℕ, Option, none, some, not, List, [], ◌∷◌, ◌++◌, map, filter, is_empty, read,
}
use enterprise_management.Matters.{EscalationMatter, ForumLink}
use enterprise_management.Matters.Matrix.{Matrix}
use enterprise_management.Matters.Site.{Site}
use enterprise_management.Matters.Queue.{each_once, keyed}
use enterprise_management.Matters.Pathway.{Participant, given, forum_of, forum_participants}

module _ (site : Site) where
  -- The users of the groups that the fired rule notifies.
  abbrev pub notified_groups : Option Matrix → ℕ → List ℕ
  notified_groups none rule = []
  notified_groups (some x) rule = keyed site x.rule_notifications (some rule)

  abbrev pub groups_of : Option ℕ → Option ℕ → List ℕ
  groups_of (some matrix) (some rule) =
      notified_groups (read (λ (x : Matrix). x.name) matrix site.matrices) rule
  groups_of _ _ = []

  abbrev pub participants : ℕ → ForumLink → List Participant
  participants on_date r = forum_participants site.governance (forum_of r) on_date

  -- The users of each of the rows, and of each of the groups.
  abbrev pub participant_users : ℕ → List ForumLink → List ℕ
  participant_users on_date [] = []
  participant_users on_date (r ∷ pathway) =
      map (λ (p : Participant). p.user) (participants on_date r)
      ++ participant_users on_date pathway

  abbrev pub group_users : List ℕ → List ℕ
  group_users [] = []
  group_users (g ∷ groups) = keyed site site.directory.group_rows (some g) ++ group_users groups

  unfoldable pub breach_recipients : EscalationMatter → ℕ → List ℕ
  unfolding each_once
  breach_recipients m on_date = each_once [] (
      given (m.accountable_executive ∷ m.response_owner ∷ m.identified_by ∷ [])
      ++ participant_users on_date m.governance_forums
      ++ group_users (groups_of m.escalation_matrix m.matched_matrix_rule))

  abbrev pub reached_forums : EscalationMatter → ℕ → List ℕ
  reached_forums m on_date =
      map forum_of (filter (λ r. not (is_empty (participants on_date r))) m.governance_forums)

-- ===== src/Matters/Queue.antt =====
-- escalation/assignment.py: the queue of a role or a group that a matter waits in.
use enterprise_management.Base.{
  ℕ, Option, none, some, Bool, false, not, ◌&&◌, ◌||◌, List, [], ◌∷◌, ◌++◌, map, if◌then◌else◌,
  ◌==◌, same, is_some, any, contains, filter,
}
use enterprise_management.StateFlags.{is_open}
use enterprise_management.Matters.{EscalationMatter}
use enterprise_management.Matters.Matrix.{Match}
use enterprise_management.Matters.Site.{Site, may_read}

abbrev pub has_queue : EscalationMatter → Bool
has_queue m = is_some m.assigned_role || is_some m.assigned_group

unfoldable pub apply_assignment : EscalationMatter → Match → EscalationMatter
apply_assignment m found = record m {
  assigned_role = found.route_to_role;
  assigned_group = found.route_to_group;
  assignment_rule =
      if is_some found.route_to_role || is_some found.route_to_group
      then some found.rule_code
      else none;
}

-- frappe.STANDARD_USERS
abbrev pub standard_users : List ℕ
standard_users = 101 ∷ 102 ∷ []

-- The loop of `_enabled`, which keeps the first of each user.
unfoldable pub each_once : List ℕ → List ℕ → List ℕ
each_once seen [] = []
each_once seen (u ∷ users) =
    let again = each_once seen users in
    let first = each_once (u ∷ seen) users in if contains seen u then again else u ∷ first

module _ (site : Site) where
  unfoldable pub enabled_users : List ℕ → List ℕ
  unfolding each_once
  enabled_users users = each_once [] (
      filter (contains site.directory.enabled)
        (filter (λ u. not (contains standard_users u)) users))

  abbrev pub keyed : List (ℕ × ℕ) → Option ℕ → List ℕ
  keyed rows none = []
  keyed rows (some key) = map (λ (r : ℕ × ℕ). r.1) (filter (λ (r : ℕ × ℕ). r.0 == key) rows)

  unfoldable pub role_holders : Option ℕ → List ℕ
  unfolding enabled_users
  role_holders role = enabled_users (keyed site.directory.role_rows role)

  unfoldable pub group_members : Option ℕ → List ℕ
  unfolding enabled_users
  group_members group = enabled_users (keyed site.directory.group_rows group)

  unfoldable pub queue_members : EscalationMatter → List ℕ
  unfolding role_holders group_members enabled_users
  queue_members m = enabled_users (role_holders m.assigned_role ++ group_members m.assigned_group)

  abbrev pub holds : ℕ → Option ℕ → Bool
  holds user none = false
  holds user (some role) = contains (site.get_roles user) role

  abbrev pub belongs : ℕ → Option ℕ → Bool
  belongs user none = false
  belongs user (some group) =
      any (λ (r : ℕ × ℕ). r.0 == group && r.1 == user) site.directory.group_rows

  unfoldable pub in_queue : EscalationMatter → ℕ → Bool
  in_queue m user = holds user m.assigned_role || belongs user m.assigned_group

  abbrev pub owned_in_queue : EscalationMatter → Option ℕ → Bool
  owned_in_queue m none = false
  owned_in_queue m (some owner) = in_queue m owner

  unfoldable pub is_waiting : EscalationMatter → Bool
  unfolding in_queue
  is_waiting m =
      if not (m.flags is_open && has_queue m)
      then false
      else not (owned_in_queue m m.response_owner)

  unfoldable pub can_take : EscalationMatter → ℕ → Bool
  unfolding is_waiting in_queue
  can_take m user = is_waiting m && not (same m.response_owner (some user)) && in_queue m user

  -- The recipients of `notify_queue`.
  unfoldable pub queue_recipients : EscalationMatter → List ℕ
  unfolding queue_members
  queue_recipients m =
      filter (λ u. not (same m.response_owner (some u)) && site.has_permission u may_read m)
        (queue_members m)

-- ===== src/Matters/Site.antt =====
-- What the operations on a matter read: the configuration and registers of the site, and the caller.
use enterprise_management.Base.{ℕ, Option, Bool, List}
use enterprise_management.Clocks
use enterprise_management.Membership.{Register}
use enterprise_management.Escalation.{Rule}
use enterprise_management.Matters.{EscalationMatter}
use enterprise_management.Matters.Matrix.{Matrix}
use enterprise_management.Matters.Template.{Template}

-- The columns of a forum that routing reads.
pub record ForumRow : Type 0 where
  pub name : ℕ
  pub escalation_protocol : Option ℕ
  pub escalation_threshold : Option ℕ
  pub active : Bool

pub record Governance : Type 0 where
  pub forums : List ForumRow
  pub register : Register

-- Users: who is enabled, the rows of Has Role by role, and of User Group Member by group.
pub record Directory : Type 0 where
  pub enabled : List ℕ
  pub role_rows : List (ℕ × ℕ)
  pub group_rows : List (ℕ × ℕ)

pub data Permission : Type 0 where
  may_read may_write : Permission

-- `governance` is missing where that module is not installed. `get_roles` and `has_permission` are
-- the framework's, and `int_of` is Python's `int` of a text. `status_options` are the states of the
-- field `status`, and `timing` what the service levels read.
pub record Site : Type 0 where
  pub matrices : List Matrix
  pub templates : List Template
  pub transition_rules : List Rule
  pub governance : Option Governance
  pub directory : Directory
  pub get_roles : ℕ → List ℕ
  pub has_permission : ℕ → Permission → EscalationMatter → Bool
  pub int_of : ℕ → Option ℕ
  pub status_options : List ℕ
  pub workflow_field : Option ℕ
  pub timing : Clocks.Site

-- The caller, the time and the day.
pub record Session : Type 0 where
  pub user : ℕ
  pub now : ℕ
  pub today : ℕ

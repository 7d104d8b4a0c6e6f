-- ===== src/Auth/Roles.antt =====
-- The role checks of gateway/internal/auth/rbac.go. A subject is a number where it parses as an id.
use one_click_agent.Prelude.{ℕ, Bool, true, false, Option, none, some, ◌==◌, if◌then◌else◌}
use one_click_agent.Model.{Agent, UserRole}

pub record Principal : Type 0 where
  pub subject : Option ℕ
  pub role : UserRole

pub data AccessError : Type 0 where
  not_admin not_owner forbidden invalid_subject : AccessError

abbrev pub is_admin : Principal → Bool
is_admin c = elim c.role [ UserRole.admin ↦ true | _ ↦ false ]

abbrev pub is_user : Principal → Bool
is_user c = elim c.role [ UserRole.user ↦ true | _ ↦ false ]

-- `none` is no error.
unfoldable pub require_admin : Principal → Option AccessError
require_admin c = if is_admin c then none else some not_admin

abbrev pub owns : Option ℕ → ℕ → Bool
owns none owner = false
owns (some user) owner = user == owner

unfoldable pub require_owner : Principal → ℕ → Option AccessError
require_owner c owner = if owns c.subject owner then none else some not_owner

abbrev pub access_of : Option ℕ → Option ℕ → Option AccessError
access_of none subject = some not_owner
access_of (some user) none = some invalid_subject
access_of (some user) (some subject) = if user == subject then none else some not_owner

unfoldable pub can_access_agent : Principal → Agent → Option AccessError
can_access_agent c a = if is_admin c then none else access_of a.user_id c.subject

unfoldable pub can_submit_job : Principal → Option AccessError
can_submit_job c = elim c.role [
  | UserRole.other ↦ some forbidden
  | UserRole.admin ↦ none
  | UserRole.user ↦ none
]

-- ===== src/Model/Users.antt =====
-- Roles and tiers: model/types.go.
use one_click_agent.Prelude.{ℕ, Bool, true, false, Option}

-- `other` is any string that is neither constant.
pub data UserRole : Type 0 where
  admin user other : UserRole

abbrev pub is_valid_role : UserRole → Bool
is_valid_role UserRole.admin = true
is_valid_role UserRole.user = true
is_valid_role UserRole.other = false

-- `unset` is the text "", which a job has whose tier nobody sets.
pub data UserTier : Type 0 where
  free pro enterprise unset : UserTier

-- Smaller is served first.
abbrev pub tier_priority : UserTier → ℕ
tier_priority UserTier.enterprise = 0
tier_priority UserTier.pro = 1
tier_priority _ = 2

-- The place of the tier's text in the order of the `text` column `jobs.user_tier`:
-- "" < "enterprise" < "free" < "pro".
abbrev pub tier_text_order : UserTier → ℕ
tier_text_order UserTier.unset = 0
tier_text_order UserTier.enterprise = 1
tier_text_order UserTier.free = 2
tier_text_order UserTier.pro = 3

-- Nothing in the gateway reads the status but the row's own reading and writing.
pub data UserStatus : Type 0 where
  active disabled : UserStatus

-- An e-mail address is a number for its text up to case, as the column's type `citext` compares it.
pub record User : Type 0 where
  pub id : ℕ
  pub email : ℕ
  pub username : ℕ
  pub password_hash : ℕ
  pub status : UserStatus
  pub role : UserRole
  pub tier : UserTier
  pub org_id : Option ℕ
  pub created_at : ℕ
  pub updated_at : ℕ

-- The user agent and the address are never set.
pub record RefreshToken : Type 0 where
  pub id : ℕ
  pub user_id : ℕ
  pub token_hash : ℕ
  pub expires_at : ℕ
  pub revoked_at : Option ℕ
  pub family : ℕ
  pub created_at : ℕ

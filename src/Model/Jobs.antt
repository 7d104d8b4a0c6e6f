-- ===== src/Model/Jobs.antt =====
-- Jobs: model/types.go. Texts and raw JSON are `String`.
use Prim.Native.String.{String}
use one_click_agent.Prelude.{ℕ, Bool, true, false, Option}
use one_click_agent.Model.Users.{UserTier}

pub data JobStatus : Type 0 where
  pending queued dispatched running succeeded failed cancelled : JobStatus

abbrev pub is_terminal : JobStatus → Bool
is_terminal JobStatus.succeeded = true
is_terminal JobStatus.failed = true
is_terminal JobStatus.cancelled = true
is_terminal _ = false

abbrev pub is_active : JobStatus → Bool
is_active JobStatus.pending = true
is_active JobStatus.queued = true
is_active JobStatus.dispatched = true
is_active JobStatus.running = true
is_active _ = false

-- The comparisons `status = 'queued'` and `status = 'dispatched'`.
abbrev pub is_queued : JobStatus → Bool
is_queued JobStatus.queued = true
is_queued _ = false

abbrev pub is_dispatched : JobStatus → Bool
is_dispatched JobStatus.dispatched = true
is_dispatched _ = false

pub record Job : Type 0 where
  pub id : ℕ
  pub user_id : ℕ
  pub user_tier : UserTier
  pub agent_id : Option ℕ
  pub device_id : Option ℕ
  pub channel : String
  pub command : String
  pub params : Option String
  pub skill_id : Option ℕ
  pub status : JobStatus
  pub percent : Option ℕ
  pub progress_message : Option String
  pub result : Option String
  pub error_code : Option String
  pub error_message : Option String
  pub queued_at : Option ℕ
  pub queue_expires_at : Option ℕ
  pub submitted_at : ℕ
  pub started_at : Option ℕ
  pub finished_at : Option ℕ
  pub created_at : ℕ
  pub updated_at : ℕ
  pub queue_position : Option ℕ
  pub estimated_wait_seconds : Option ℕ

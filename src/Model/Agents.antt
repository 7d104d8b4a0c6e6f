-- ===== src/Model/Agents.antt =====
-- Agents: model/types.go.
use Prim.Native.String.{String}
use one_click_agent.Prelude.{ℕ, Bool, true, false, Option, List}

pub data AgentStatus : Type 0 where
  creating idle busy unhealthy failed removed : AgentStatus

abbrev pub is_idle : AgentStatus → Bool
is_idle AgentStatus.idle = true
is_idle _ = false

abbrev pub is_creating : AgentStatus → Bool
is_creating AgentStatus.creating = true
is_creating _ = false

abbrev pub is_failed : AgentStatus → Bool
is_failed AgentStatus.failed = true
is_failed _ = false

pub record AgentLimits : Type 0 where
  pub cpu : ℕ
  pub mem_mb : ℕ
  pub disk_mb : ℕ

pub record Agent : Type 0 where
  pub id : ℕ
  pub device_id : ℕ
  pub user_id : Option ℕ
  pub name : String
  pub description : String
  pub image : String
  pub port : ℕ
  pub tags : List String
  pub status : AgentStatus
  pub job_id : Option ℕ
  pub limits : Option AgentLimits
  pub allocated_at : Option ℕ
  pub created_at : ℕ
  pub updated_at : ℕ

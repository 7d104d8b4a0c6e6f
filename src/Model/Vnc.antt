-- ===== src/Model/Vnc.antt =====
-- VNC sessions: model/types.go.
use Prim.Native.String.{String}
use one_click_agent.Prelude.{ℕ, Bool, true, false, Option}

pub data VncSessionStatus : Type 0 where
  pending ready active closed error : VncSessionStatus

abbrev pub is_open : VncSessionStatus → Bool
is_open VncSessionStatus.closed = false
is_open VncSessionStatus.error = false
is_open _ = true

-- A row of `vnc_sessions`.
pub record VncSession : Type 0 where
  pub id : ℕ
  pub job_id : ℕ
  pub user_id : ℕ
  pub device_id : ℕ
  pub agent_id : ℕ
  pub session_token_hash : ℕ
  pub rfb_password : Option String
  pub status : VncSessionStatus
  pub gateway_node : Option String
  pub idle_ttl_secs : ℕ
  pub max_ttl_secs : ℕ
  pub last_active_at : Option ℕ
  pub token_expires_at : Option ℕ
  pub started_at : Option ℕ
  pub close_reason : Option String
  pub created_at : ℕ
  pub ended_at : Option ℕ

-- `is_ready`: the status is "ready".
pub record VncOpenedPayload : Type 0 where
  pub session_id : ℕ
  pub is_ready : Bool
  pub rfb_password : String
  pub error : Option String

-- The address in a VNC_OPEN is made of the session's id and is left out.
pub record VncOpenPayload : Type 0 where
  pub session_id : ℕ
  pub agent_id : ℕ
  pub job_id : ℕ
  pub session_token : ℕ
  pub ttl_secs : ℕ

pub record VncClosePayload : Type 0 where
  pub session_id : ℕ
  pub reason : String

-- ===== src/Model/Frames.antt =====
-- The tunnel's frames and the payloads that the gateway builds: model/types.go. A payload stands
-- for its JSON text; `raw` is any text that a device sends.
use Prim.Native.String.{String}
use one_click_agent.Prelude.{ℕ, ◌*◌, ◌^◌, Option, List}
use one_click_agent.Model.Agents.{AgentLimits}
use one_click_agent.Model.Files.{Bytes}
use one_click_agent.Model.Vnc.{VncOpenPayload, VncClosePayload}
use one_click_agent.Model.Skills.{
  SkillDispatchBeginPayload, SkillChunkPayload, SkillDispatchEndPayload, SkillActionPayload,
  SkillRetryPayload, SkillSyncPayload,
}

abbrev pub second : ℕ
second = 1000000000

abbrev pub frame_version : ℕ
frame_version = 1

abbrev pub frame_max_size : ℕ
frame_max_size = 2 ^ 20

abbrev pub ack_retransmit_base : ℕ
ack_retransmit_base = 1 * second

abbrev pub ack_retransmit_max_retries : ℕ
ack_retransmit_max_retries = 3

pub data FrameType : Type 0 where
  hello hello_ack ping pong ack error state_sync : FrameType
  job_dispatch job_cancel job_query : FrameType
  job_accepted job_progress job_result job_rejected job_login_required : FrameType
  agent_create agent_action agent_status_req agent_status : FrameType
  skill_dispatch_begin skill_chunk skill_dispatch_end skill_action skill_state skill_sync :
      FrameType
  skill_dispatch_ack skill_retry : FrameType
  file_push_begin file_chunk file_push_end file_ack file_purged : FrameType
  file_pull_begin file_pull_chunk file_pull_end file_pull_ack : FrameType
  vnc_open vnc_opened vnc_close : FrameType
  cred_push cred_push_ack cred_capture cred_capture_ack : FrameType
  empty : FrameType
  unknown : String → FrameType

pub record JobDispatchPayload : Type 0 where
  pub job_id : ℕ
  pub user_id : ℕ
  pub agent_id : ℕ
  pub command : String
  pub params : Option String
  pub skill_id : Option ℕ
  pub file_ids : List ℕ
  pub credential_ids : List ℕ
  pub submitted_at : ℕ

pub record AgentCreatePayload : Type 0 where
  pub agent_id : ℕ
  pub image : String
  pub tags : List String
  pub limits : AgentLimits

pub record AgentActionPayload : Type 0 where
  pub agent_id : ℕ
  pub action : String

-- `config` is its two numbers.
pub record HelloAckPayload : Type 0 where
  pub server_time : ℕ
  pub session_id : ℕ
  pub heartbeat_s : ℕ
  pub max_frame_bytes : ℕ

-- The map of three texts that the cancellation sends; the reason is always the same.
pub record JobCancelPayload : Type 0 where
  pub job_id : ℕ
  pub agent_id : ℕ

pub record FilePushBeginPayload : Type 0 where
  pub file_id : ℕ
  pub job_id : ℕ
  pub file_name : Bytes
  pub size_bytes : ℕ
  pub total_chunks : ℕ
  pub sha256 : ℕ

-- The data is the text in base64.
pub record FileChunkPayload : Type 0 where
  pub file_id : ℕ
  pub chunk_index : ℕ
  pub data_b64 : Bytes

pub data PullStatus : Type 0 where
  chunk_ok received error : PullStatus

-- The index is `none` for -1, a reply about the whole file.
pub record FilePullAckPayload : Type 0 where
  pub file_id : ℕ
  pub status : PullStatus
  pub error : String
  pub chunk_index : Option ℕ

pub data Payload : Type 0 where
  absent : Payload
  raw : String → Payload
  dispatch : JobDispatchPayload → Payload
  create_agent : AgentCreatePayload → Payload
  act_on_agent : AgentActionPayload → Payload
  hello_reply : HelloAckPayload → Payload
  cancel_job : JobCancelPayload → Payload
  push_begin : FilePushBeginPayload → Payload
  push_chunk : FileChunkPayload → Payload
  push_end : ℕ → Payload
  pull_ack : FilePullAckPayload → Payload
  skill_begin : SkillDispatchBeginPayload → Payload
  skill_chunk : SkillChunkPayload → Payload
  skill_end : SkillDispatchEndPayload → Payload
  skill_action : SkillActionPayload → Payload
  skill_retry : SkillRetryPayload → Payload
  skill_sync : SkillSyncPayload → Payload
  vnc_open : VncOpenPayload → Payload
  vnc_close : VncClosePayload → Payload

pub record Frame : Type 0 where
  pub version : ℕ
  pub type : FrameType
  pub msg_id : ℕ
  pub ack_id : Option ℕ
  pub ts : ℕ
  pub payload : Payload

-- ===== src/Model/Inbound.antt =====
-- The payloads of the frames that a device sends: model/types.go. An absent text is the empty one.
use Prim.Native.String.{String}
use one_click_agent.Prelude.{ℕ, Option, List}
use one_click_agent.Model.Jobs.{JobStatus}
use one_click_agent.Model.Agents.{AgentStatus}
use one_click_agent.Model.Files.{Bytes, FileStatus}

pub record HelloAgent : Type 0 where
  pub agent_id : ℕ
  pub name : Option String
  pub status : AgentStatus

pub record HelloPayload : Type 0 where
  pub device_id : ℕ
  pub platform : Option String
  pub agent_count : ℕ
  pub agents : List HelloAgent

pub record JobProgressPayload : Type 0 where
  pub job_id : ℕ
  pub event_seq : ℕ
  pub status : JobStatus
  pub percent : ℕ
  pub message : String

pub record JobResultPayload : Type 0 where
  pub job_id : ℕ
  pub status : JobStatus
  pub result : Option String
  pub error_msg : Option String

pub record JobRejectedPayload : Type 0 where
  pub job_id : ℕ
  pub reason : String

pub record AgentStatusPayload : Type 0 where
  pub agent_id : ℕ
  pub status : AgentStatus

-- The jobs that the device knows; the agents of the payload are not read.
pub record StateSyncPayload : Type 0 where
  pub jobs : List ℕ

pub record FileAckPayload : Type 0 where
  pub file_id : ℕ
  pub status : FileStatus
  pub error : Option String

-- `chunks` is the JSON name of the number of chunks.
pub record FilePullBeginPayload : Type 0 where
  pub file_id : ℕ
  pub job_id : ℕ
  pub name : Bytes
  pub size : ℕ
  pub sha256 : ℕ
  pub chunks : ℕ

-- The index may be negative, which is `none`; the data is the text before decoding.
pub record FilePullChunkPayload : Type 0 where
  pub file_id : ℕ
  pub index : Option ℕ
  pub data_b64 : Bytes

pub record FilePullEndPayload : Type 0 where
  pub file_id : ℕ

pub record JobLoginRequiredPayload : Type 0 where
  pub job_id : ℕ
  pub origin : String

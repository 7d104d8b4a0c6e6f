-- ===== src/Skills/Dispatch.antt =====
-- Sending skills to devices: gateway/internal/skillvault/dispatch.go. The chunks are cut as those of
-- a file are, and sent by goroutines in an order that is a parameter. `Stat` of an open file and
-- the reads of it do not fail.
use one_click_agent.Prelude.{
  ℕ, ◌+◌, ◌-◌, ◌/◌, Option, none, some, List, [], ◌∷◌, length, ◌*◌, ◌==◌, if◌then◌else◌,
}
use one_click_agent.Model.{
  Bytes, Device, FrameType, Payload, SkillVersion, DeviceSkill, AgentSkillStatus,
  SkillInstallStatus, SkillScope, SkillAction, SkillDispatchBeginPayload, SkillChunkPayload,
  SkillStatePayload,
}
use one_click_agent.World.{
  M, Error, version_not_found, invalid_skill_state, return, fail, attempt, ◌>>=◌, ◌>>◌,
}
use one_click_agent.Store.Skills
use one_click_agent.Store.Devices
use one_click_agent.Pool.Frames.{new_frame, send}
use one_click_agent.Relay.Push.{Schedule, read_chunks, last_error}
use one_click_agent.Skills.Vault.{open_artifact}

abbrev pub skill_chunk_size : ℕ
skill_chunk_size = 256 * 1024

-- An empty artifact is announced as one chunk.
abbrev pub total_chunks : ℕ → ℕ
total_chunks size = if size == 0 then 1 else (size + skill_chunk_size - 1) / skill_chunk_size

abbrev pub begin_payload : ℕ → SkillVersion → ℕ → SkillDispatchBeginPayload
begin_payload skill v size = record {
  skill_id = skill;
  skill_version_id = v.id;
  version = v.version;
  total_chunks = total_chunks size;
  total_bytes = size;
  sha256 = v.sha256;
}

abbrev pub chunk_payload : (Bytes → Bytes) → ℕ → ℕ → ℕ × Bytes → SkillChunkPayload
chunk_payload encode skill version (i, content) = record {
  skill_id = skill;
  skill_version_id = version;
  chunk_index = i;
  content = encode content;
}

abbrev pub send_payload : ℕ → FrameType → Payload → M (Unit {0})
send_payload device type payload = do frame ← new_frame type payload; send device frame

abbrev pub send_chunk : (Bytes → Bytes) → ℕ → ℕ → ℕ → ℕ × Bytes → M (Unit {0})
send_chunk encode device skill version c =
    send_payload device FrameType.skill_chunk
      (Payload.skill_chunk (chunk_payload encode skill version c))

-- Every chunk is sent, whatever became of the others; the last error is the one reported.
unfoldable pub send_chunks :
    (Bytes → Bytes) → ℕ → ℕ → ℕ → List (ℕ × Bytes) → Option Error → M (Option Error)
send_chunks encode device skill version [] failed = return failed
send_chunks encode device skill version (c ∷ cs) failed = do
  r ← attempt (send_chunk encode device skill version c)
  send_chunks encode device skill version cs (last_error r failed)

abbrev pub end_dispatch : ℕ → ℕ → ℕ → Option Error → M (Unit {0})
end_dispatch device skill version (some e) = fail e
end_dispatch device skill version none =
    send_payload device FrameType.skill_dispatch_end
      (Payload.skill_end (record { skill_id = skill; skill_version_id = version }))

-- The reads of the loop: the number of bytes is enough of them.
abbrev pub chunks_of : Bytes → List (ℕ × Bytes)
chunks_of content = read_chunks skill_chunk_size (length content) 0 content

abbrev pub send_artifact : (Bytes → Bytes) → Schedule → ℕ → ℕ → SkillVersion → Bytes → M (Unit {0})
send_artifact encode schedule device skill v content = do
  send_payload device FrameType.skill_dispatch_begin
      (Payload.skill_begin (begin_payload skill v (length content)))
  failed ← send_chunks encode device skill v.id (schedule (chunks_of content)) none
  end_dispatch device skill v.id failed

abbrev pub wanted : ℕ → ℕ → Bytes → DeviceSkill
wanted device skill version = record {
  device_id = device;
  skill_id = skill;
  version = version;
  status = SkillInstallStatus.installing;
  installed_by = none;
  error_message = none;
  updated_at = 0;
}

abbrev pub dispatch_version :
    (Bytes → Bytes) → Schedule → ℕ → ℕ → Option SkillVersion → M (Unit {0})
dispatch_version encode schedule device skill none = fail version_not_found
dispatch_version encode schedule device skill (some v) = do
  Skills.set_device_skill (wanted device skill v.version)
  content ← open_artifact v
  send_artifact encode schedule device skill v content

unfoldable pub dispatch_to_device : (Bytes → Bytes) → Schedule → ℕ → ℕ → ℕ → M (Unit {0})
dispatch_to_device encode schedule device skill version = do
  v ← Skills.get_version version
  dispatch_version encode schedule device skill v

unfoldable pub send_skill_action :
    ℕ → SkillScope → SkillAction → ℕ → Bytes → Option ℕ → M (Unit {0})
send_skill_action device scope action skill version agent =
    send_payload device FrameType.skill_action (
      Payload.skill_action (record {
        scope = scope;
        action = action;
        skill_id = skill;
        version = some version;
        agent_id = agent;
      }))

-- The skills of the device's agents are left out by the source too.
unfoldable pub sync_skills : ℕ → M (Unit {0})
sync_skills device = do
  rows ← Skills.get_device_skills device
  send_payload device FrameType.skill_sync
      (Payload.skill_sync (record { device_skills = rows; agent_skills = [] }))

-- Every status but `disabled` enables an agent's skill.
abbrev pub agent_status : SkillInstallStatus → AgentSkillStatus
agent_status SkillInstallStatus.disabled = AgentSkillStatus.disabled
agent_status _ = AgentSkillStatus.enabled

abbrev pub update_agent_state : Option ℕ → SkillStatePayload → M (Unit {0})
update_agent_state none p = fail invalid_skill_state
update_agent_state (some agent) p = Skills.set_agent_skill (record {
  agent_id = agent;
  skill_id = p.skill_id;
  status = agent_status p.status;
  selected_by = none;
  updated_at = 0;
})

unfoldable pub update_device_skill_state : ℕ → SkillStatePayload → M (Unit {0})
update_device_skill_state device p = elim p.scope [
  | SkillScope.device ↦ Skills.update_device_skill_status device p.skill_id p.status
  | SkillScope.agent ↦ update_agent_state p.agent_id p
  | SkillScope.other_scope ↦ fail invalid_skill_state
]

-- A device that fails does not stop the others; the last error is the one reported.
unfoldable pub dispatch_each :
    (Bytes → Bytes) → Schedule → ℕ → ℕ → List Device → Option Error → M (Option Error)
dispatch_each encode schedule skill version [] failed = return failed
dispatch_each encode schedule skill version (d ∷ devices) failed = do
  r ← attempt (dispatch_to_device encode schedule d.id skill version)
  dispatch_each encode schedule skill version devices (last_error r failed)

abbrev pub reported : Option Error → M (Unit {0})
reported none = return tt
reported (some e) = fail e

unfoldable pub dispatch_to_all_devices : (Bytes → Bytes) → Schedule → ℕ → ℕ → M (Unit {0})
dispatch_to_all_devices encode schedule skill version = do
  devices ← Devices.list_all
  failed ← dispatch_each encode schedule skill version devices none
  reported failed

unfoldable pub retry_failed_agents : ℕ → ℕ → List ℕ → Option Bytes → M (Unit {0})
retry_failed_agents device skill agents version =
    send_payload device FrameType.skill_retry
      (Payload.skill_retry (record { skill_id = skill; agent_ids = agents; version = version }))

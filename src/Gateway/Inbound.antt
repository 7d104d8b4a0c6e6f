-- ===== src/Gateway/Inbound.antt =====
-- Frames that come in on a connection: `handleFrame`, `handleHello`, `sendAck` and `sendPong` of
-- gateway/internal/tunnel/device_conn.go, with the Handle methods of gateway/internal/tunnel/hub.go
-- that pass a payload on to the gateway's handlers. The connection is the pointer `p`; decoding a
-- payload is a parameter. Frames about credentials are passed over here.
use one_click_agent.Prelude.{
  ℕ, Bool, true, false, Option, none, some, List, [], ◌∷◌, lookup, insert, is_some, if◌then◌else◌,
}
use one_click_agent.Model.{
  Frame, FrameType, Payload, HelloPayload, JobProgressPayload, JobResultPayload, JobRejectedPayload,
  AgentStatusPayload, StateSyncPayload, FileAckPayload, FilePullBeginPayload, FilePullChunkPayload,
  FilePullEndPayload, JobLoginRequiredPayload, SkillStatePayload, VncOpenedPayload,
}
use one_click_agent.Tunnel.Acks.{remove}
use one_click_agent.Tunnel.Conn.{DeviceConn}
use one_click_agent.World.{M, Result, ok, bad_payload, return, fail, attempt, ◌>>=◌, ◌>>◌}
use one_click_agent.Relay.Push.{on_file_ack}
use one_click_agent.Relay.Pull.{on_file_pull_begin, on_file_pull_chunk, on_file_pull_end}
use one_click_agent.Gateway.Handlers.{
  Gateway, on_job_progress, on_job_result, on_job_accepted, on_job_rejected, on_agent_status,
  on_state_sync, on_file_purged, on_job_login_required, on_skill_state, on_vnc_opened, on_vnc_close,
}

-- `json.Unmarshal` of a payload into each of its types.
pub record Decoder : Type 0 where
  pub hello : Payload → Option HelloPayload
  pub progress : Payload → Option JobProgressPayload
  pub result : Payload → Option JobResultPayload
  pub accepted : Payload → Option ℕ
  pub rejected : Payload → Option JobRejectedPayload
  pub agent_status : Payload → Option AgentStatusPayload
  pub state_sync : Payload → Option StateSyncPayload
  pub file_ack : Payload → Option FileAckPayload
  pub pull_begin : Payload → Option FilePullBeginPayload
  pub pull_chunk : Payload → Option FilePullChunkPayload
  pub pull_end : Payload → Option FilePullEndPayload
  pub login_required : Payload → Option JobLoginRequiredPayload
  pub skill_state : Payload → Option SkillStatePayload
  pub vnc_opened : Payload → Option VncOpenedPayload

-- What is written to the socket at once, past the outbound queue.
pub data Reply : Type 0 where
  acked : ℕ → Reply
  pong : Reply

-- A frame of a kind that is neither remembered nor acknowledged.
abbrev pub is_control : FrameType → Bool
is_control FrameType.ack = true
is_control FrameType.ping = true
is_control FrameType.pong = true
is_control _ = false

abbrev pub is_hello : FrameType → Bool
is_hello FrameType.hello = true
is_hello _ = false

abbrev pub with_payload : {A : Type 0} → Option A → (A → M (Unit {0})) → M (Unit {0})
with_payload none k = fail bad_payload
with_payload (some a) k = k a

abbrev pub update_conn : Option DeviceConn → ℕ → (DeviceConn → DeviceConn) → M (Unit {0})
update_conn none p f w = (ok tt, w)
update_conn (some c) p f w =
    (ok tt, record w { hub = record w.hub { conns = insert p (f c) w.hub.conns } })

-- A write to the connection at the pointer.
abbrev pub on_conn : ℕ → (DeviceConn → DeviceConn) → M (Unit {0})
on_conn p f w = update_conn (lookup p w.hub.conns) p f w

abbrev pub touch : ℕ → M (Unit {0})
touch p w = on_conn p (λ c. record c { last_seen = w.now }) w

-- The switch over the type, for the connection's device.
unfoldable pub route : Gateway → Decoder → ℕ → ℕ → Frame → M (Unit {0})
route g d p device f = elim f.type [
  | FrameType.hello ↦ return tt
  | FrameType.ping ↦ return tt
  | FrameType.pong ↦ touch p
  | FrameType.ack ↦
      on_conn p
        (λ c. record c { acks = elim f.ack_id [ none ↦ c.acks | some id ↦ remove id c.acks ] })
  | FrameType.job_progress ↦ with_payload (d.progress f.payload) on_job_progress
  | FrameType.job_result ↦ with_payload (d.result f.payload) on_job_result
  | FrameType.job_accepted ↦ with_payload (d.accepted f.payload) on_job_accepted
  | FrameType.job_rejected ↦ with_payload (d.rejected f.payload) on_job_rejected
  | FrameType.agent_status ↦ with_payload (d.agent_status f.payload) on_agent_status
  | FrameType.state_sync ↦ with_payload (d.state_sync f.payload) (on_state_sync device)
  | FrameType.file_ack ↦ with_payload (d.file_ack f.payload) on_file_ack
  | FrameType.file_pull_begin ↦
      with_payload (d.pull_begin f.payload) (on_file_pull_begin g.relay device)
  | FrameType.file_pull_chunk ↦
      with_payload (d.pull_chunk f.payload) (on_file_pull_chunk g.relay device)
  | FrameType.file_pull_end ↦
      with_payload (d.pull_end f.payload) (λ e. on_file_pull_end g.relay device e.file_id)
  | FrameType.job_login_required ↦ with_payload (d.login_required f.payload) on_job_login_required
  | FrameType.file_purged ↦ on_file_purged g
  | FrameType.skill_state ↦ with_payload (d.skill_state f.payload) (on_skill_state device)
  | FrameType.vnc_opened ↦ with_payload (d.vnc_opened f.payload) on_vnc_opened
  | FrameType.vnc_close ↦ with_payload (d.vnc_opened f.payload) on_vnc_close
  | _ ↦ return tt
]

abbrev pub replies_to : Frame → List Reply
replies_to f = elim f.type [
  | FrameType.ack ↦ []
  | FrameType.pong ↦ []
  | FrameType.ping ↦ pong ∷ []
  | _ ↦ acked f.msg_id ∷ []
]

-- The replies and the handler's error, which the reading loop only logs.
abbrev pub Handled : Type 0
Handled = List Reply × Result (Unit {0})

-- The acknowledgement is deferred: it goes out whatever the handler returns.
abbrev pub routed : Frame → Result (Unit {0}) → M Handled
routed f r = return (replies_to f, r)

abbrev pub remember : ℕ → Frame → M (Unit {0})
remember p f w =
    if is_control f.type
    then (ok tt, w)
    else on_conn p (λ c. record c { processed = insert f.msg_id w.now c.processed }) w

abbrev pub seen : Frame → DeviceConn → Bool
seen f c = if is_control f.type then false else is_some (lookup f.msg_id c.processed)

abbrev pub handle_on : Gateway → Decoder → ℕ → Frame → Option DeviceConn → M Handled
handle_on g d p f none = return ([], ok tt)
handle_on g d p f (some c) =
    if seen f c
    then return (acked f.msg_id ∷ [], ok tt)
    else (do remember p f; r ← attempt (route g d p c.device_id f); routed f r)

unfoldable pub handle_frame : Gateway → Decoder → ℕ → Frame → M Handled
handle_frame g d p f w = handle_on g d p f (lookup p w.hub.conns) w

-- ===== src/Http/Vnc.antt =====
-- The handlers of VNC sessions in gateway/internal/httpapi/vnc_handler.go. A request to open one
-- ends in two steps: what is done before the device has answered, and the answer once it has or once
-- the time is over. The addresses in an answer are made of the ids in it and are left out. SHA-256 is
-- a parameter, as is the comparison of texts.
use Prim.Native.String.{String}
use one_click_agent.Prelude.{ℕ, ◌*◌, Bool, true, false, Option, none, some, if◌then◌else◌}
use one_click_agent.Model.{
  Job, JobStatus, FrameType, Payload, VncSession, VncSessionStatus, VncOpenPayload, second,
}
use one_click_agent.World.{M, Result, ok, err, return, attempt, ignore, new_uuid, ◌>>=◌, ◌>>◌}
use one_click_agent.Store.VncSessions
use one_click_agent.VncRelay
use one_click_agent.VncRelay.{
  Session, Status, Waiting, unknown_session, would_wait, failed, unblocked, create_session,
  get_session, close_session, wait_ready,
}
use one_click_agent.Pool.Frames.{new_frame, send}
use one_click_agent.Http.Answers.{Answer, created, okay, Refusal, refuse_with, with_own_job}

pub record VncConfig : Type 0 where
  pub hash_token : ℕ → ℕ
  pub same_text : String → String → Bool
  pub idle_ttl_secs : ℕ
  pub max_ttl_secs : ℕ

-- A session that was open before is answered at once; a new one waits for its device.
pub data Opening : Type 0 where
  reused awaited : ℕ → ℕ → Opening

abbrev pub session_request : VncConfig → ℕ → Job → ℕ → ℕ → VncRelay.Request
session_request c user job agent device = record {
  job_id = job.id;
  user_id = user;
  device_id = device;
  agent_id = agent;
  idle_ttl = c.idle_ttl_secs * second;
  max_ttl = c.max_ttl_secs * second;
}

unfoldable pub open_session : VncConfig → VncRelay.Request → ℕ → ℕ → M ℕ
open_session c q id token w =
    let made = create_session c.hash_token q id token w.now w.vnc in
    (ok made.0, record w { vnc = made.1 })

abbrev pub is_pending : Option Session → Bool
is_pending none = false
is_pending (some s) = elim s.status [ Status.pending ↦ true | _ ↦ false ]

abbrev pub open_payload : VncConfig → VncRelay.Request → ℕ → ℕ → VncOpenPayload
open_payload c q session token = record {
  session_id = session;
  agent_id = q.agent_id;
  job_id = q.job_id;
  session_token = token;
  ttl_secs = c.max_ttl_secs;
}

abbrev pub ask_device : VncConfig → VncRelay.Request → ℕ → ℕ → M (Answer Opening)
ask_device c q session token = do
  frame ← new_frame FrameType.vnc_open (Payload.vnc_open (open_payload c q session token))
  ignore (send q.device_id frame)
  return (created (awaited session token))

abbrev pub session_of : ℕ → M (Option Session)
session_of id w = (ok (get_session id w.vnc), w)

abbrev pub opened : VncConfig → VncRelay.Request → M (Answer Opening)
opened c q = do
  id ← new_uuid
  token ← new_uuid
  session ← open_session c q id token
  s ← session_of session
  if is_pending s then ask_device c q session token else return (created (reused session token))

abbrev pub open_assigned : VncConfig → ℕ → Job → Option ℕ → Option ℕ → M (Answer Opening)
open_assigned c user job (some agent) (some device) =
    opened c (session_request c user job agent device)
open_assigned c user job none device = refuse_with Refusal.internal_error
open_assigned c user job (some agent) none = refuse_with Refusal.internal_error

abbrev pub open_running : VncConfig → ℕ → Job → M (Answer Opening)
open_running c user job = elim job.status [
  | JobStatus.running ↦ open_assigned c user job job.agent_id job.device_id
  | _ ↦ refuse_with Refusal.conflict
]

unfoldable pub handle_open_vnc : VncConfig → ℕ → ℕ → M (Answer Opening)
handle_open_vnc c user job = with_own_job user job (open_running c user)

abbrev pub after_wait : Waiting → M (Answer String)
after_wait (unblocked password) = return (created password)
after_wait (failed e) = refuse_with Refusal.gateway_timeout
after_wait unknown_session = refuse_with Refusal.gateway_timeout
after_wait would_wait = refuse_with Refusal.gateway_timeout

-- The end of a request that waited.
unfoldable pub answer_open : ℕ → M (Answer String)
answer_open session w = after_wait (wait_ready session w.vnc) w

-- The device is told of the end of a session that the relay knows.
abbrev pub tell_device : ℕ → Option Session → M (Unit {0})
tell_device id none = return tt
tell_device id (some s) = do
  frame ←
      new_frame FrameType.vnc_close
        (Payload.vnc_close (record { session_id = id; reason = "user requested" }))
  ignore (send s.device_id frame)

abbrev pub close_in_relay : ℕ → M (Unit {0})
close_in_relay id w = (ok tt, record w { vnc = close_session w.now id w.vnc })

-- The request's user is not looked at.
unfoldable pub handle_close_vnc : ℕ → M (Answer (Unit {0}))
handle_close_vnc id = do s ← session_of id; tell_device id s; close_in_relay id; return (okay tt)

pub record VncStatusResponse : Type 0 where
  pub session_id : Option ℕ
  pub status : VncSessionStatus
  pub rfb_password : Option String

-- The row's status where the relay does not know the session. A session that the relay has closed
-- is shown as pending.
abbrev pub live_status : Status → VncSessionStatus
live_status Status.pending = VncSessionStatus.pending
live_status Status.ready = VncSessionStatus.ready
live_status Status.active = VncSessionStatus.active
live_status Status.closed = VncSessionStatus.pending

abbrev pub shown : VncConfig → ℕ → Session → VncStatusResponse
shown c id s = record {
  session_id = some id;
  status = live_status s.status;
  rfb_password = if c.same_text s.rfb_password "" then none else some s.rfb_password;
}

abbrev pub show_live : VncConfig → VncSession → Option Session → M (Answer VncStatusResponse)
show_live c row none =
    return (okay (record { session_id = some row.id; status = row.status; rfb_password = none }))
show_live c row (some s) = return (okay (shown c row.id s))

abbrev pub show_session : VncConfig → Result (Option VncSession) → M (Answer VncStatusResponse)
show_session c (err e) = refuse_with Refusal.internal_error
show_session c (ok none) =
    return
      (okay (record { session_id = none; status = VncSessionStatus.closed; rfb_password = none }))
show_session c (ok (some row)) = do s ← session_of row.id; show_live c row s

abbrev pub job_session : VncConfig → ℕ → M (Answer VncStatusResponse)
job_session c job = do row ← attempt (VncSessions.get_by_job_id job); show_session c row

unfoldable pub handle_get_job_vnc : VncConfig → ℕ → ℕ → M (Answer VncStatusResponse)
handle_get_job_vnc c user job = with_own_job user job (λ (j : Job). job_session c job)

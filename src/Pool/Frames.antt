-- ===== src/Pool/Frames.antt =====
-- Building frames and sending them over the hub: `NewFrame` in gateway/internal/tunnel/codec.go,
-- and the dispatch of a job in gateway/internal/pool/allocator.go.
use one_click_agent.Prelude.{ℕ, Bool, true, false, map, ◌/◌, Option, none, some, List, []}
use one_click_agent.Model.{
  File, Job, Agent, Frame, FrameType, Payload, JobDispatchPayload, frame_version,
}
use one_click_agent.Tunnel.Registry.{in_memory}
use one_click_agent.Tunnel.Hub.{Hub, SendError, send_frame}
use one_click_agent.World.{
  World, M, Result, ok, err, send_error, new_uuid, ◌>>=◌, ◌>>◌, return, attempt,
}
use one_click_agent.Store.Files.{list_by_job}

-- The hooks that the gateway wires into the allocator, whether it has the store of files, and its
-- configuration. A lookup of credentials that fails gives no ids. `push_credentials` gets job,
-- agent and device, and acts on the hub.
pub record Deps : Type 0 where
  pub max_queue : ℕ
  pub queue_ttl : ℕ
  pub dispatch_timeout : ℕ
  pub has_files : Bool
  pub cred_ids : Option (ℕ → List ℕ)
  pub push_credentials : Option (ℕ → ℕ → ℕ → Hub in_memory → Hub in_memory)

abbrev pub ids_of : Option (ℕ → List ℕ) → ℕ → List ℕ
ids_of none job = []
ids_of (some f) job = f job

abbrev pub listed_ids : Result (List File) → List ℕ
listed_ids (ok files) = map (λ f. f.id) files
listed_ids (err e) = []

-- The ids of the files of a job; an error of the query is dropped.
abbrev pub input_ids : Bool → ℕ → M (List ℕ)
input_ids false job = return []
input_ids true job = do files ← attempt (list_by_job job); return (listed_ids files)

-- `time.UnixMilli` of an instant.
abbrev pub millis : ℕ → ℕ
millis t = t / 1000000

-- The frame with the given message id.
unfoldable pub framed : FrameType → Payload → ℕ → M Frame
framed type payload id w = (
  ok (record {
    version = frame_version;
    type = type;
    msg_id = id;
    ack_id = none;
    ts = millis w.now;
    payload = payload;
  }),
  w,
)

unfoldable pub new_frame : FrameType → Payload → M Frame
new_frame type payload = do id ← new_uuid; framed type payload id

abbrev pub sent : Option SendError × Hub in_memory → World → Result (Unit {0}) × World
sent (none, hub) w = (ok tt, record w { hub = hub })
sent (some e, hub) w = (err send_error, record w { hub = hub })

unfoldable pub send : ℕ → Frame → M (Unit {0})
send device frame w = sent (send_frame w.now device frame w.hub) w

abbrev pub push : Option (ℕ → ℕ → ℕ → Hub in_memory → Hub in_memory) → ℕ → ℕ → ℕ → M (Unit {0})
push none job agent device w = (ok tt, w)
push (some f) job agent device w = (ok tt, record w { hub = f job agent device w.hub })

abbrev pub dispatch_payload : Deps → Job → Agent → List ℕ → JobDispatchPayload
dispatch_payload deps job agent files = record {
  job_id = job.id;
  user_id = job.user_id;
  agent_id = agent.id;
  command = job.command;
  params = job.params;
  skill_id = job.skill_id;
  file_ids = files;
  credential_ids = ids_of deps.cred_ids job.id;
  submitted_at = millis job.submitted_at;
}

unfoldable pub dispatch_job : Deps → Job → Agent → M (Unit {0})
dispatch_job deps job agent = do
  files ← input_ids deps.has_files job.id
  frame ←
      new_frame FrameType.job_dispatch (Payload.dispatch (dispatch_payload deps job agent files))
  send agent.device_id frame
  push deps.push_credentials job.id agent.id agent.device_id

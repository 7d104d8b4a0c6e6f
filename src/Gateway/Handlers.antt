-- ===== src/Gateway/Handlers.antt =====
-- What the gateway does when a device's frame arrives: the functions that gateway/cmd/gateway/main.go
-- hands to the hub. The frames of credentials are not modelled here.
use Prim.Native.String.{String}
use one_click_agent.Prelude.{
  ℕ, ◌+◌, ◌*◌, ◌&&◌, not, Bool, false, Option, none, some, List, [], ◌∷◌, map, ltb, ◌==◌,
  if◌then◌else◌, count_where,
}
use one_click_agent.Model.{
  Job, JobStatus, Agent, DeviceStatus, HelloAgent, HelloPayload, JobProgressPayload,
  JobResultPayload, JobRejectedPayload, AgentStatusPayload, StateSyncPayload,
  JobLoginRequiredPayload, SkillStatePayload, VncOpenedPayload, WsEvent, WsEventType, job_topic,
  is_active, second,
}
use one_click_agent.World.{
  World, M, Result, ok, err, vnc_error, return, attempt, ignore, ◌>>=◌, ◌>>◌,
}
use one_click_agent.PubSub.{publish}
use one_click_agent.Store.Jobs
use one_click_agent.Store.Agents
use one_click_agent.Store.Devices
use one_click_agent.Store.VncSessions
use one_click_agent.VncRelay.{Relay, VncError, mark_ready, mark_error, close_session}
use one_click_agent.Skills.Dispatch.{update_device_skill_state}
use one_click_agent.Pool.Frames.{Deps}
use one_click_agent.Pool.Allocate.{release}
use one_click_agent.Pool.Fleet.{reconcile_pool}
use one_click_agent.Relay.Staging.{RelayConfig, cleanup_job_files, cleanup_staged_files}

-- What `main` wires together; `named` is the name made of an identifier's text.
pub record Gateway : Type 0 where
  pub deps : Deps
  pub named : ℕ → String
  pub relay : RelayConfig

abbrev pub job_event : WsEventType → ℕ → WsEvent
job_event type job = record { type = type; topic = job_topic job }

unfoldable pub publish_job : WsEventType → ℕ → M (Unit {0})
publish_job type job w =
    (ok tt, record w { broker = publish (job_topic job) (job_event type job) w.broker })

abbrev pub set_platform : ℕ → Option String → M (Unit {0})
set_platform device none = return tt
set_platform device (some platform) = ignore (Devices.update_platform device platform)

abbrev pub set_name : ℕ → Option String → M (Unit {0})
set_name agent none = return tt
set_name agent (some name) = ignore (Agents.update_name agent name)

unfoldable pub set_names : List HelloAgent → M (Unit {0})
set_names [] = return tt
set_names (a ∷ agents) = do set_name a.agent_id a.name; set_names agents

unfoldable pub on_hello : Gateway → ℕ → HelloPayload → M (Unit {0})
on_hello g device p = do
  ignore (Devices.update_status device DeviceStatus.online)
  set_platform device p.platform
  set_names p.agents
  ignore (reconcile_pool g.named g.deps device (map (λ a. a.agent_id) p.agents))

unfoldable pub on_job_progress : JobProgressPayload → M (Unit {0})
on_job_progress p = do
  Jobs.update_progress p.job_id p.percent p.message p.status
  publish_job WsEventType.job_progress p.job_id

-- The agent of the job's row goes back to the pool, whichever job it works for by now.
abbrev pub give_back : Option ℕ → M (Unit {0}) → M (Unit {0})
give_back none after = return tt
give_back (some agent) after = do ignore (release agent); after

abbrev pub agent_of : Result (Option Job) → Option ℕ
agent_of (ok (some job)) = job.agent_id
agent_of (ok none) = none
agent_of (err e) = none

unfoldable pub on_job_result : JobResultPayload → M (Unit {0})
on_job_result p = do
  Jobs.update_result p.job_id p.status p.result
  publish_job WsEventType.job_result p.job_id
  job ← attempt (Jobs.get_by_id p.job_id)
  give_back (agent_of job) (ignore (cleanup_job_files p.job_id))

unfoldable pub on_job_accepted : ℕ → M (Unit {0})
on_job_accepted job = Jobs.update_status job JobStatus.running

unfoldable pub on_job_rejected : JobRejectedPayload → M (Unit {0})
on_job_rejected p = do
  ignore (Jobs.update_result p.job_id JobStatus.failed none)
  job ← attempt (Jobs.get_by_id p.job_id)
  give_back (agent_of job) (return tt)
  publish_job WsEventType.job_result p.job_id

abbrev pub grace_period : ℕ
grace_period = 120 * second

-- `time.Since(*j.StartedAt) < gracePeriod`, read as a sum.
abbrev pub in_grace : Option ℕ → ℕ → Bool
in_grace none now = false
in_grace (some s) now = ltb now (s + grace_period)

-- A job that is active here, that the device does not know, and that is past the grace period.
abbrev pub is_forgotten : List ℕ → ℕ → Job → Bool
is_forgotten known now j =
    is_active j.status
    && (count_where (λ id. id == j.id) known == 0)
    && not (in_grace j.started_at now)

abbrev pub fail_forgotten : ℕ → ℕ → M (Unit {0})
fail_forgotten agent job = do
  ignore (Jobs.update_result job JobStatus.failed none)
  ignore (release agent)

unfoldable pub sync_jobs : List ℕ → ℕ → ℕ → List Job → M (Unit {0})
sync_jobs known now agent [] = return tt
sync_jobs known now agent (j ∷ jobs) = do
  if is_forgotten known now j then fail_forgotten agent j.id else return tt
  sync_jobs known now agent jobs

abbrev pub rows_of : {A : Type 0} → Result (List A) → List A
rows_of (ok rows) = rows
rows_of (err e) = []

unfoldable pub sync_agents : List ℕ → ℕ → List Agent → M (Unit {0})
sync_agents known now [] = return tt
sync_agents known now (a ∷ agents) = do
  jobs ← attempt (Jobs.list_by_agent a.id)
  sync_jobs known now a.id (rows_of jobs)
  sync_agents known now agents

abbrev pub sync_now : List ℕ → List Agent → M (Unit {0})
sync_now known agents w = sync_agents known w.now agents w

unfoldable pub on_state_sync : ℕ → StateSyncPayload → M (Unit {0})
on_state_sync device p = do
  agents ← attempt (Agents.list_by_device device)
  sync_now p.jobs (rows_of agents)

unfoldable pub on_agent_status : AgentStatusPayload → M (Unit {0})
on_agent_status p = Agents.update_status p.agent_id p.status

unfoldable pub on_file_purged : Gateway → M (Unit {0})
on_file_purged g = cleanup_staged_files g.relay

unfoldable pub on_job_login_required : JobLoginRequiredPayload → M (Unit {0})
on_job_login_required p = publish_job WsEventType.login_required p.job_id

unfoldable pub on_skill_state : ℕ → SkillStatePayload → M (Unit {0})
on_skill_state device p = update_device_skill_state device p

-- The relay's own mutex is not held over any other call.
abbrev pub on_relay : Option VncError × Relay → World → Result (Unit {0}) × World
on_relay (none, r) w = (ok tt, record w { vnc = r })
on_relay (some e, r) w = (err vnc_error, record w { vnc = r })

-- The device that sends the frame is not looked at.
unfoldable pub on_vnc_opened : VncOpenedPayload → M (Unit {0})
on_vnc_opened p w =
    if p.is_ready
    then on_relay (mark_ready p.session_id p.rfb_password w.vnc) w
    else (ok tt, record w { vnc = mark_error w.now p.session_id p.error w.vnc })

abbrev pub close_relayed : ℕ → M (Unit {0})
close_relayed session w = (ok tt, record w { vnc = close_session w.now session w.vnc })

unfoldable pub on_vnc_close : VncOpenedPayload → M (Unit {0})
on_vnc_close p = do close_relayed p.session_id; VncSessions.close p.session_id

unfoldable pub on_disconnect : ℕ → M (Unit {0})
on_disconnect device = Devices.update_status device DeviceStatus.offline

-- ===== src/Pool/Allocate.antt =====
-- `Allocate` and `Release` of gateway/internal/pool/allocator.go.
use one_click_agent.Prelude.{ℕ, ◌+◌, Option, none, some, ltb, leb, if◌then◌else◌}
use one_click_agent.Model.{Job, JobStatus, Agent, AgentStatus}
use one_click_agent.World.{M, Result, ok, err, queue_full, return, fail, attempt, ◌>>=◌, ◌>>◌}
use one_click_agent.Store.Jobs
use one_click_agent.Store.Agents
use one_click_agent.Pool.Frames.{Deps}

-- The per-user cap; no cap if `max_queue` is 0.
abbrev pub check_cap : Deps → ℕ → M (Unit {0})
check_cap deps user =
    if ltb 0 deps.max_queue
    then (do
      count ← Jobs.count_queued_by_user user
      if leb deps.max_queue count then fail queue_full else return tt)
    else return tt

abbrev pub positioned : Result ℕ → Option ℕ → Option ℕ
positioned (ok pos) old = some pos
positioned (err e) old = old

-- The caller's job when it has to wait.
abbrev pub queued_job : Deps → ℕ → Result ℕ → Job → Job
queued_job deps now pos job = record job {
  queued_at = some now;
  queue_expires_at = some (now + deps.queue_ttl);
  status = JobStatus.queued;
  queue_position = positioned pos job.queue_position;
}

abbrev pub assigned_job : Agent → Job → Job
assigned_job agent job = record job {
  agent_id = some agent.id;
  device_id = some agent.device_id;
  status = JobStatus.dispatched;
}

abbrev pub assigned_agent : Job → Agent → Agent
assigned_agent job agent = record agent {
  status = AgentStatus.busy;
  user_id = some job.user_id;
  job_id = some job.id;
}

-- The caller's job and no agent.
unfoldable pub waits : Deps → Job → Result ℕ → M (Job × Option Agent)
waits deps job pos w = (ok (queued_job deps w.now pos job, none), w)

abbrev pub allocate_found : Deps → Job → Option Agent → M (Job × Option Agent)
allocate_found deps job none = do pos ← attempt (Jobs.get_queue_position job.id); waits deps job pos
allocate_found deps job (some agent) = do
  Agents.allocate agent.id job.user_id job.id
  return (assigned_job agent job, some (assigned_agent job agent))

-- The job as the caller has it afterwards, and the agent, if one was idle.
unfoldable pub allocate : Deps → Job → M (Job × Option Agent)
allocate deps job = do
  check_cap deps job.user_id
  idle ← Agents.find_idle
  allocate_found deps job idle

-- `Release`, up to the start of `dequeueNext`.
unfoldable pub release : ℕ → M (Unit {0})
release agent = Agents.release agent

-- ===== src/Gateway/Assigned.antt =====
-- The handlers of device frames and of requests keep the agents' assignments consistent with their
-- statuses: gateway/cmd/gateway/main.go and gateway/internal/httpapi/jobs_handler.go.
use Prim.Native.String.{String}
use one_click_agent.Prelude.{ℕ, Option, none, some, List, [], ◌∷◌}
use one_click_agent.Model.{
  Job, JobStatus, Agent, JobProgressPayload, JobResultPayload, JobRejectedPayload, StateSyncPayload,
  WsEventType, FrameType, Payload,
}
use one_click_agent.World.{M, Result, ok, err}
use one_click_agent.World.Keeps.{
  Keeps, step-Keeps, bind-Keeps, then-Keeps, return-Keeps, attempt-Keeps, ignore-Keeps, if-Keeps,
}
use one_click_agent.Store.Jobs
use one_click_agent.Store.Agents
use one_click_agent.Pool.Assigned.{
  AreConsistent, release-Keeps, send-Keeps, new_frame-Keeps, update_job-Keeps,
}
use one_click_agent.Relay.Untouched.{cleanup_job_files-Keeps}
use one_click_agent.Gateway.Handlers.{
  publish_job, on_job_progress, give_back, agent_of, on_job_result, on_job_accepted,
  on_job_rejected, is_forgotten, sync_jobs, rows_of, sync_agents, on_state_sync, sync_now,
}
use one_click_agent.Http.Jobs.{tell_device, release_agent, cancelled_job, cancel_payload}

publish_job-Keeps : (type : WsEventType) (job : ℕ) → Keeps AreConsistent (publish_job type job)
unfolding publish_job
publish_job-Keeps type job = record { keeps = λ w h. h }

result-Keeps :
    (id : ℕ) (s : JobStatus) (r : Option String) → Keeps AreConsistent (Jobs.update_result id s r)
unfolding Jobs.update_result
result-Keeps id s r = step-Keeps AreConsistent _ _ (λ w h. h)

pub get_job-Keeps : (id : ℕ) → Keeps AreConsistent (Jobs.get_by_id id)
unfolding Jobs.get_by_id
get_job-Keeps id = step-Keeps AreConsistent _ _ (λ w h. h)

pub on_job_progress-Keeps : (p : JobProgressPayload) → Keeps AreConsistent (on_job_progress p)
unfolding on_job_progress Jobs.update_progress
on_job_progress-Keeps p =
    then-Keeps AreConsistent (step-Keeps AreConsistent _ _ (λ w h. h))
      (publish_job-Keeps WsEventType.job_progress p.job_id)

give_back-Keeps :
    (a : Option ℕ) {m : M (Unit {0})} → Keeps AreConsistent m → Keeps AreConsistent (give_back a m)
give_back-Keeps none h = return-Keeps AreConsistent tt
give_back-Keeps (some a) h =
    then-Keeps AreConsistent (ignore-Keeps AreConsistent (release-Keeps a)) h

pub on_job_result-Keeps : (p : JobResultPayload) → Keeps AreConsistent (on_job_result p)
unfolding on_job_result
on_job_result-Keeps p = then-Keeps AreConsistent (result-Keeps p.job_id p.status p.result) (
    then-Keeps AreConsistent (publish_job-Keeps WsEventType.job_result p.job_id) (
      bind-Keeps AreConsistent (attempt-Keeps AreConsistent (get_job-Keeps p.job_id)) λ job.
        give_back-Keeps (agent_of job)
          (ignore-Keeps AreConsistent (cleanup_job_files-Keeps AreConsistent p.job_id))))

pub on_job_accepted-Keeps : (job : ℕ) → Keeps AreConsistent (on_job_accepted job)
unfolding on_job_accepted
on_job_accepted-Keeps job = update_job-Keeps job JobStatus.running

pub on_job_rejected-Keeps : (p : JobRejectedPayload) → Keeps AreConsistent (on_job_rejected p)
unfolding on_job_rejected
on_job_rejected-Keeps p =
    then-Keeps AreConsistent
      (ignore-Keeps AreConsistent (result-Keeps p.job_id JobStatus.failed none))
      (bind-Keeps AreConsistent (attempt-Keeps AreConsistent (get_job-Keeps p.job_id)) λ job.
        then-Keeps AreConsistent (give_back-Keeps (agent_of job) (return-Keeps AreConsistent tt))
          (publish_job-Keeps WsEventType.job_result p.job_id))

sync_jobs-Keeps :
    (known : List ℕ) (now agent : ℕ) (jobs : List Job)
    → Keeps AreConsistent (sync_jobs known now agent jobs)
unfolding sync_jobs
sync_jobs-Keeps known now agent [] = return-Keeps AreConsistent tt
sync_jobs-Keeps known now agent (j ∷ jobs) =
    then-Keeps AreConsistent
      (if-Keeps AreConsistent (is_forgotten known now j)
        (then-Keeps AreConsistent
          (ignore-Keeps AreConsistent (result-Keeps j.id JobStatus.failed none))
          (ignore-Keeps AreConsistent (release-Keeps agent)))
        (return-Keeps AreConsistent tt))
      (sync_jobs-Keeps known now agent jobs)

list_jobs-Keeps : (agent : ℕ) → Keeps AreConsistent (Jobs.list_by_agent agent)
unfolding Jobs.list_by_agent
list_jobs-Keeps agent = step-Keeps AreConsistent _ _ (λ w h. h)

list_agents-Keeps : (device : ℕ) → Keeps AreConsistent (Agents.list_by_device device)
unfolding Agents.list_by_device
list_agents-Keeps device = step-Keeps AreConsistent _ _ (λ w h. h)

sync_agents-Keeps :
    (known : List ℕ) (now : ℕ) (agents : List Agent)
    → Keeps AreConsistent (sync_agents known now agents)
unfolding sync_agents
sync_agents-Keeps known now [] = return-Keeps AreConsistent tt
sync_agents-Keeps known now (a ∷ agents) =
    bind-Keeps AreConsistent (attempt-Keeps AreConsistent (list_jobs-Keeps a.id)) λ jobs.
      then-Keeps AreConsistent (sync_jobs-Keeps known now a.id (rows_of jobs))
        (sync_agents-Keeps known now agents)

sync_now-Keeps :
    (known : List ℕ) (agents : List Agent) → Keeps AreConsistent (sync_now known agents)
sync_now-Keeps known agents = record {
  keeps = λ w h. (sync_agents-Keeps known w.now agents).keeps w h;
}

pub on_state_sync-Keeps :
    (device : ℕ) (p : StateSyncPayload) → Keeps AreConsistent (on_state_sync device p)
unfolding on_state_sync
on_state_sync-Keeps device p =
    bind-Keeps AreConsistent (attempt-Keeps AreConsistent (list_agents-Keeps device))
      λ agents. sync_now-Keeps p.jobs (rows_of agents)

tell_device-Keeps :
    (job : ℕ) (agent device : Option ℕ) → Keeps AreConsistent (tell_device job agent device)
unfolding tell_device
tell_device-Keeps job none device = return-Keeps AreConsistent tt
tell_device-Keeps job (some a) none = return-Keeps AreConsistent tt
tell_device-Keeps job (some a) (some d) =
    bind-Keeps AreConsistent
      (new_frame-Keeps FrameType.job_cancel (Payload.cancel_job (cancel_payload job a)))
      λ frame. ignore-Keeps AreConsistent (send-Keeps d frame)

release_agent-Keeps : (a : Option ℕ) → Keeps AreConsistent (release_agent a)
release_agent-Keeps none = return-Keeps AreConsistent tt
release_agent-Keeps (some a) = ignore-Keeps AreConsistent (release-Keeps a)

pub cancelled_job-Keeps :
    (job : Job) (r : Result (Unit {0})) → Keeps AreConsistent (cancelled_job job r)
cancelled_job-Keeps job (err e) = return-Keeps AreConsistent _
cancelled_job-Keeps job (ok _) =
    then-Keeps AreConsistent (tell_device-Keeps job.id job.agent_id job.device_id)
      (then-Keeps AreConsistent (release_agent-Keeps job.agent_id) (return-Keeps AreConsistent _))

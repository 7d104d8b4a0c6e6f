-- ===== src/Gateway/Operations.antt =====
-- The gateway as a state machine: everything that happens to its state is an operation below, in any
-- order, and between two of them the environment moves the clock, changes the hub and chooses which
-- calls will fail. HELLO and AGENT_STATUS, which set an agent's status as the device says, are left
-- out.
use one_click_agent.Prelude.{ℕ, Bool, List, [], ◌∷◌}
use one_click_agent.Model.{
  JobProgressPayload, JobResultPayload, JobRejectedPayload, StateSyncPayload,
}
use one_click_agent.Tunnel.Registry.{in_memory}
use one_click_agent.Tunnel.Hub.{Hub}
use one_click_agent.World.{World}
use one_click_agent.Pool.Allocate.{release}
use one_click_agent.Pool.Dequeue.{dequeue_next}
use one_click_agent.Pool.Fleet.{ensure_pool_size, drain_agent}
use one_click_agent.Pool.Assigned.{AreConsistent, release-Keeps, dequeue_next-AreConsistent}
use one_click_agent.Pool.FleetAssigned.{ensure_pool_size-Keeps, drain_agent-Keeps}
use one_click_agent.Relay.Push.{Schedule}
use one_click_agent.Relay.Untouched.{cleanup_staged_files-Keeps}
use one_click_agent.Gateway.Handlers.{
  Gateway, on_job_progress, on_job_accepted, on_job_result, on_job_rejected, on_state_sync,
  on_file_purged,
}
use one_click_agent.Gateway.Assigned.{
  on_job_progress-Keeps, on_job_accepted-Keeps, on_job_result-Keeps, on_job_rejected-Keeps,
  on_state_sync-Keeps,
}
use one_click_agent.Http.Jobs.{handle_cancel_job}
use one_click_agent.Http.Submit.{SubmitJobRequest, SkillCheck, handle_submit_job}
use one_click_agent.Http.Assigned.{handle_submit_job-Keeps, handle_cancel_job-Keeps}

pub data Operation : Type 0 where
  submit : ℕ → SubmitJobRequest → Schedule → Operation
  cancel : ℕ → ℕ → Operation
  progress : JobProgressPayload → Operation
  accepted : ℕ → Operation
  finished : JobResultPayload → Operation
  rejected : JobRejectedPayload → Operation
  sync : ℕ → StateSyncPayload → Operation
  purged : Operation
  dequeue : ℕ → Operation
  ensure_size : ℕ → ℕ → Operation
  drain : ℕ → Operation
  give_back : ℕ → Operation
  elapse : ℕ → Hub in_memory → List Bool → Operation

module _ (g : Gateway) (skill_check : ℕ → ℕ → SkillCheck) where
  abbrev pub step : Operation → World → World
  step (submit user req schedule) w = (handle_submit_job g schedule skill_check user req w).1
  step (cancel user id) w = (handle_cancel_job user id w).1
  step (progress p) w = (on_job_progress p w).1
  step (accepted job) w = (on_job_accepted job w).1
  step (finished p) w = (on_job_result p w).1
  step (rejected p) w = (on_job_rejected p w).1
  step (sync device p) w = (on_state_sync device p w).1
  step purged w = (on_file_purged g w).1
  step (dequeue fuel) w = (dequeue_next fuel g.deps w).1
  step (ensure_size device n) w = (ensure_pool_size g.named device n w).1
  step (drain id) w = (drain_agent id w).1
  step (give_back id) w = (release id w).1
  step (elapse now hub faults) w = record w { now = now; hub = hub; faults = faults }

  abbrev pub run : List Operation → World → World
  run [] w = w
  run (o ∷ os) w = run os (step o w)

  step-AreConsistent :
      (o : Operation) (w : World)
      → AreConsistent w.jobs w.agents
      → AreConsistent (step o w).jobs (step o w).agents
  unfolding on_file_purged
  step-AreConsistent (submit user req schedule) w h =
      (handle_submit_job-Keeps g schedule user req skill_check).keeps w h
  step-AreConsistent (cancel user id) w h = (handle_cancel_job-Keeps user id).keeps w h
  step-AreConsistent (progress p) w h = (on_job_progress-Keeps p).keeps w h
  step-AreConsistent (accepted job) w h = (on_job_accepted-Keeps job).keeps w h
  step-AreConsistent (finished p) w h = (on_job_result-Keeps p).keeps w h
  step-AreConsistent (rejected p) w h = (on_job_rejected-Keeps p).keeps w h
  step-AreConsistent (sync device p) w h = (on_state_sync-Keeps device p).keeps w h
  step-AreConsistent purged w h = (cleanup_staged_files-Keeps AreConsistent g.relay).keeps w h
  step-AreConsistent (dequeue fuel) w h = dequeue_next-AreConsistent fuel g.deps w h
  step-AreConsistent (ensure_size device n) w h =
      (ensure_pool_size-Keeps g.named device n).keeps w h
  step-AreConsistent (drain id) w h = (drain_agent-Keeps id).keeps w h
  step-AreConsistent (give_back id) w h = (release-Keeps id).keeps w h
  step-AreConsistent (elapse now hub faults) w h = h

-- Whatever sequence of submissions, cancellations, frames about jobs, clean-ups, emptyings of the
-- queue, changes of the pool and moves of the environment takes place: where every idle agent belongs
-- to nobody and every busy one has a user and a job at the start, they do at the end, whichever calls
-- of the environment fail on the way.
pub run-AreConsistent :
    (g : Gateway) (skill_check : ℕ → ℕ → SkillCheck) (os : List Operation) (w : World)
    → AreConsistent w.jobs w.agents
    → AreConsistent (run g skill_check os w).jobs (run g skill_check os w).agents
run-AreConsistent g skill_check [] w h = h
run-AreConsistent g skill_check (o ∷ os) w h =
    run-AreConsistent g skill_check os (step g skill_check o w)
      (step-AreConsistent g skill_check o w h)

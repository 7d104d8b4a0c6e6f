-- ===== src/Http/Cancelled.antt =====
-- What a cancellation does, and what a late JOB_ACCEPTED makes of it: `handleCancelJob` of
-- gateway/internal/httpapi/jobs_handler.go and `OnJobAccepted` of gateway/cmd/gateway/main.go.
use one_click_agent.Prelude.{
  ℕ, suc, ◌≡◌, refl, sym, ap, subst, ◌∙◌, true, false, Option, none, some, List, [], find_first,
  ==_self,
}
use one_click_agent.Model.{JobStatus, Job, Agent, AgentStatus, is_terminal}
use one_click_agent.World.{World, Result, ok, db, ◌>>◌, return}
use one_click_agent.Tunnel.Registry.{in_memory}
use one_click_agent.Tunnel.Hub.{Hub, send_frame}
use one_click_agent.World.Calls.{db-works}
use one_click_agent.Store.Rows.{update_where}
use one_click_agent.Store.Members.{count_where-found, find_first-update_where, updated_row}
use one_click_agent.Store.Jobs
use one_click_agent.Store.Agents
use one_click_agent.Pool.Frames.{new_frame, framed, send}
use one_click_agent.Pool.Sends.{sent_quietly}
use one_click_agent.Pool.Allocate.{release}
use one_click_agent.Gateway.Handlers.{on_job_accepted}
use one_click_agent.Http.Answers.{Answer, okay, with_own_job}
use one_click_agent.Http.Jobs.{handle_cancel_job, tell_device, cancelled_job, release_agent}

-- Telling a device changes nothing but the hub and the supply of identifiers.
tell_device-quiet :
    (job : ℕ) (agent device : Option ℕ) (w : World)
    → (hub : Hub in_memory) × (fresh : ℕ) × (tell_device job agent device w
        ≡ (ok tt, record w { hub = hub; fresh = fresh }))
unfolding tell_device new_frame framed send
tell_device-quiet job none device w = (w.hub, w.fresh, refl)
tell_device-quiet job (some a) none w = (w.hub, w.fresh, refl)
tell_device-quiet job (some a) (some d) w =
    let (hub, e) = sent_quietly (send_frame w.now d _ w.hub) (record w { fresh = suc w.fresh }) in
    (hub, suc w.fresh, e)

-- The tables after a cancellation of the job by its user.
abbrev cancelled_rows : Job → World → List Job
cancelled_rows job w =
    update_where (Jobs.may_cancel job.id job.user_id) (Jobs.cancelled_at w.now) w.jobs

abbrev freed_rows : ℕ → World → List Agent
freed_rows a w = update_where (Agents.has_id a) (Agents.released w.now) w.agents

record IsCancelled (job : Job) (a : ℕ) (w : World) (r : Result (Answer (Unit {0})) × World)
    : Type 0 where
  answered : r.0 ≡ ok (okay tt)
  job_rows : r.1.jobs ≡ cancelled_rows job w
  agent_rows : r.1.agents ≡ freed_rows a w
  no_faults : r.1.faults ≡ []
  same_time : r.1.now ≡ w.now

cancelled_job-calm :
    (job : Job) (a : ℕ) (w : World)
    → job.agent_id ≡ some a
    → IsCancelled job a w
        (cancelled_job job (ok tt) (record w { jobs = cancelled_rows job w; faults = [] }))
unfolding release Agents.release db
cancelled_job-calm job a w holds =
    let v = record w { jobs = cancelled_rows job w; faults = [] } in
    let (hub, fresh, e) = tell_device-quiet job.id job.agent_id job.device_id v in
    let told = record v { hub = hub; fresh = fresh } in
    let done : World → Result (Answer (Unit {0})) × World = return (okay tt) in
    let up_to : cancelled_job job (ok tt) v ≡ (release_agent job.agent_id >> done) told =
      rw e refl in
    subst (IsCancelled job a w) (sym (up_to ∙ ap (λ o. (release_agent o >> done) told) holds))
      (record {
        answered = refl;
        job_rows = refl;
        agent_rows = refl;
        no_faults = refl;
        same_time = refl;
      })

handle_cancel_job-calm :
    (job : Job) (a : ℕ) (w : World)
    → find_first (Jobs.has_id job.id) w.jobs ≡ some job
    → is_terminal job.status ≡ false
    → job.agent_id ≡ some a
    → IsCancelled job a w (handle_cancel_job job.user_id job.id (record w { faults = [] }))
unfolding handle_cancel_job with_own_job Jobs.get_by_id Jobs.cancel db
handle_cancel_job-calm job a w there live holds =
    let may : Jobs.may_cancel job.id job.user_id job ≡ true =
      rw (==_self job.id, ==_self job.user_id, live) refl in
    let some_row =
      count_where-found (Jobs.has_id job.id) (Jobs.may_cancel job.id job.user_id) job w.jobs there
        may in
    let own = ==_self job.user_id in
    let w₀ = record w { faults = [] } in
    let v = record w { jobs = cancelled_rows job w; faults = [] } in
    let steps : handle_cancel_job job.user_id job.id w₀ ≡ cancelled_job job (ok tt) v =
      rw (there, own, live, some_row) refl in
    subst (IsCancelled job a w) (sym steps) (cancelled_job-calm job a w holds)

cancelled_row :
    (job : Job) (w : World)
    → find_first (Jobs.has_id job.id) w.jobs ≡ some job
    → is_terminal job.status ≡ false
    → find_first (Jobs.has_id job.id) (cancelled_rows job w) ≡ some (Jobs.cancelled_at w.now job)
cancelled_row job w there live =
    let may : Jobs.may_cancel job.id job.user_id job ≡ true =
      rw (==_self job.id, ==_self job.user_id, live) refl in
    let row =
      find_first-update_where (Jobs.has_id job.id) (Jobs.may_cancel job.id job.user_id)
        (Jobs.cancelled_at w.now) job w.jobs (λ y. refl) there in
    rw may at row

-- Where no call of the environment fails and the job is in the table, not terminal, with an agent in
-- the table: a cancellation by the job's user is answered with success, the job is cancelled, and
-- its agent is idle and belongs to nobody.
pub handle_cancel_job-cancels :
    (job : Job) (a : ℕ) (agent : Agent) (w : World)
    → w.faults ≡ []
    → find_first (Jobs.has_id job.id) w.jobs ≡ some job
    → is_terminal job.status ≡ false
    → job.agent_id ≡ some a
    → find_first (Agents.has_id a) w.agents ≡ some agent
    → let r = handle_cancel_job job.user_id job.id w in
      (r.0 ≡ ok (okay tt))
      × (find_first (Jobs.has_id job.id) r.1.jobs
          ≡ some (record job {
            status = JobStatus.cancelled;
            finished_at = some w.now;
            updated_at = w.now;
          }))
      × (find_first (Agents.has_id a) r.1.agents
          ≡ some (record agent {
            status = AgentStatus.idle;
            user_id = none;
            job_id = none;
            allocated_at = none;
            updated_at = w.now;
          }))
handle_cancel_job-cancels job a agent w calm there live holds at_hand =
    let c =
      subst
        (λ fs.
          IsCancelled job a w (handle_cancel_job job.user_id job.id (record w { faults = fs })))
        (sym calm) (handle_cancel_job-calm job a w there live holds) in
    (
      c.answered,
      ap (λ js. find_first (Jobs.has_id job.id) js) c.job_rows ∙ cancelled_row job w there live,
      ap (λ ags. find_first (Agents.has_id a) ags) c.agent_rows
          ∙ updated_row (Agents.has_id a) (Agents.released w.now) agent w.agents (λ y. refl)
              at_hand,
    )

-- Under the same conditions, if the device's JOB_ACCEPTED for the job is handled right after the
-- cancellation, the cancelled job is running again, while its agent is idle and belongs to nobody.
pub handle_cancel_job-undone :
    (job : Job) (a : ℕ) (agent : Agent) (w : World)
    → w.faults ≡ []
    → find_first (Jobs.has_id job.id) w.jobs ≡ some job
    → is_terminal job.status ≡ false
    → job.agent_id ≡ some a
    → find_first (Agents.has_id a) w.agents ≡ some agent
    → let v = (handle_cancel_job job.user_id job.id w).1 in
      let w' = (on_job_accepted job.id v).1 in
      (find_first (Jobs.has_id job.id) w'.jobs
        ≡ some (record job {
          status = JobStatus.running;
          finished_at = some w.now;
          updated_at = w.now;
        }))
      × (find_first (Agents.has_id a) w'.agents
          ≡ some (record agent {
            status = AgentStatus.idle;
            user_id = none;
            job_id = none;
            allocated_at = none;
            updated_at = w.now;
          }))
unfolding on_job_accepted Jobs.update_status
handle_cancel_job-undone job a agent w calm there live holds at_hand =
    let c =
      subst
        (λ fs.
          IsCancelled job a w (handle_cancel_job job.user_id job.id (record w { faults = fs })))
        (sym calm) (handle_cancel_job-calm job a w there live holds) in
    let v = (handle_cancel_job job.user_id job.id w).1 in
    let (_, row, freed) = handle_cancel_job-cancels job a agent w calm there live holds at_hand in
    let works =
      db-works
        (λ u. (ok tt, Jobs.update_jobs (Jobs.has_id job.id) (Jobs.with_status JobStatus.running) u))
        v c.no_faults in
    rw works (
      updated_row (Jobs.has_id job.id) (Jobs.with_status JobStatus.running v.now)
            (Jobs.cancelled_at w.now job) v.jobs (λ y. refl) row
          ∙ ap (λ n. some (Jobs.with_status JobStatus.running n (Jobs.cancelled_at w.now job)))
              c.same_time,
      freed,
    )

-- ===== src/Http/Jobs.antt =====
-- `handleGetJob`, `handleCancelJob` and `handleGetJobResult` of
-- gateway/internal/httpapi/jobs_handler.go.
use Prim.Native.String.{String}
use one_click_agent.Prelude.{ℕ, Option, none, some, if◌then◌else◌}
use one_click_agent.Model.{
  Job, JobStatus, JobCancelPayload, FrameType, Payload, is_terminal, is_queued,
}
use one_click_agent.World.{M, Result, ok, err, return, attempt, ignore, ◌>>=◌, ◌>>◌}
use one_click_agent.Store.Jobs
use one_click_agent.Pool.Frames.{new_frame, send}
use one_click_agent.Pool.Allocate.{release}
use one_click_agent.Pool.Fleet.{value_or_zero}
use one_click_agent.Http.Answers.{Answer, okay, Refusal, refuse_with, with_own_job, if_owner}

-- A queued job is shown with its place in the queue.
abbrev pub show_job : Job → M (Answer Job)
show_job job =
    if is_queued job.status
    then (do
      pos ← attempt (Jobs.get_queue_position job.id)
      return (okay (record job { queue_position = some (value_or_zero pos) })))
    else return (okay job)

abbrev pub job_found : ℕ → Result (Option Job) → M (Answer Job)
job_found user (err e) = refuse_with Refusal.internal_error
job_found user (ok none) = refuse_with Refusal.not_found
job_found user (ok (some job)) = if_owner user show_job job

unfoldable pub handle_get_job : ℕ → ℕ → M (Answer Job)
handle_get_job user id = do job ← attempt (Jobs.get_by_id id); job_found user job

abbrev pub cancel_payload : ℕ → ℕ → JobCancelPayload
cancel_payload job agent = record { job_id = job; agent_id = agent }

-- The device is told if the job has an agent and a device.
unfoldable pub tell_device : ℕ → Option ℕ → Option ℕ → M (Unit {0})
tell_device job none device = return tt
tell_device job (some agent) none = return tt
tell_device job (some agent) (some device) = do
  frame ← new_frame FrameType.job_cancel (Payload.cancel_job (cancel_payload job agent))
  ignore (send device frame)

abbrev pub release_agent : Option ℕ → M (Unit {0})
release_agent none = return tt
release_agent (some agent) = ignore (release agent)

abbrev pub cancelled_job : Job → Result (Unit {0}) → M (Answer (Unit {0}))
cancelled_job job (err e) = refuse_with Refusal.internal_error
cancelled_job job (ok _) = do
  tell_device job.id job.agent_id job.device_id
  release_agent job.agent_id
  return (okay tt)

abbrev pub cancel_job : ℕ → Job → M (Answer (Unit {0}))
cancel_job user job =
    if is_terminal job.status
    then refuse_with Refusal.conflict
    else (do r ← attempt (Jobs.cancel job.id user); cancelled_job job r)

unfoldable pub handle_cancel_job : ℕ → ℕ → M (Answer (Unit {0}))
handle_cancel_job user id = with_own_job user id (cancel_job user)

pub record JobResult : Type 0 where
  pub job_id : ℕ
  pub status : JobStatus
  pub result : Option String

abbrev pub result_of : Job → JobResult
result_of job = record { job_id = job.id; status = job.status; result = job.result }

unfoldable pub handle_get_job_result : ℕ → ℕ → M (Answer JobResult)
handle_get_job_result user id = with_own_job user id (λ job. return (okay (result_of job)))

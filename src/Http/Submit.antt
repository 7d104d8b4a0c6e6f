-- ===== src/Http/Submit.antt =====
-- `handleSubmitJob` of gateway/internal/httpapi/jobs_handler.go. A missing command is the empty
-- one. Whether a skill is there for a user is the skill vault's answer, a parameter; the links
-- between jobs and credentials are no part of the state.
use Prim.Native.String.{String}
use one_click_agent.Prelude.{
  ℕ, ◌*◌, Bool, true, false, Option, none, some, List, [], ◌∷◌, ltb, if◌then◌else◌,
}
use one_click_agent.Model.{
  Job, JobStatus, UserTier, Agent, FileRole, FrameType, Payload, JobDispatchPayload, WsEventType,
  job_topic,
}
use one_click_agent.World.{
  M, Result, ok, err, Error, queue_full, return, attempt, ignore, ◌>>=◌, ◌>>◌,
}
use one_click_agent.PubSub.{publish_scoped}
use one_click_agent.Store.Jobs
use one_click_agent.Store.Files
use one_click_agent.Pool.Frames.{new_frame, send, push, millis}
use one_click_agent.Pool.Allocate.{allocate, release}
use one_click_agent.Pool.Fleet.{value_or_zero}
use one_click_agent.Relay.Push.{Schedule, push_job_inputs}
use one_click_agent.Gateway.Handlers.{Gateway, job_event}
use one_click_agent.Http.Answers.{Answer, created, accepted, Refusal, refuse_with}

pub record SubmitJobRequest : Type 0 where
  pub command : Option String
  pub skill_id : Option ℕ
  pub file_ids : List ℕ
  pub credential_ids : List ℕ

pub record JobResponse : Type 0 where
  pub job : Job
  pub agent_id : Option ℕ
  pub queue_position : Option ℕ
  pub estimated_wait_seconds : Option ℕ

-- The user's account was not found, or whether the skill is visible to them.
pub data SkillCheck : Type 0 where
  no_user : SkillCheck
  visible : Bool → SkillCheck

-- No tier and no channel are set.
abbrev pub new_job : ℕ → String → Option ℕ → Job
new_job user command skill = record {
  id = 0;
  user_id = user;
  user_tier = UserTier.unset;
  agent_id = none;
  device_id = none;
  channel = "";
  command = command;
  params = none;
  skill_id = skill;
  status = JobStatus.pending;
  percent = none;
  progress_message = none;
  result = none;
  error_code = none;
  error_message = none;
  queued_at = none;
  queue_expires_at = none;
  submitted_at = 0;
  started_at = none;
  finished_at = none;
  created_at = 0;
  updated_at = 0;
  queue_position = none;
  estimated_wait_seconds = none;
}

-- Whoever the files belong to.
unfoldable pub link_inputs : ℕ → List ℕ → M (Unit {0})
link_inputs job [] = return tt
link_inputs job (file ∷ files) = do
  ignore (Files.link_to_job file job FileRole.input)
  link_inputs job files

abbrev pub if_positive : ℕ → ℕ → Option ℕ
if_positive n m = if ltb 0 n then some m else none

abbrev pub waiting_response : Job → ℕ → JobResponse
waiting_response job pos = record {
  job = record job { queue_position = some pos };
  agent_id = none;
  queue_position = if_positive pos pos;
  estimated_wait_seconds = if_positive pos (pos * 30);
}

unfoldable pub answer_queued : Job → M (Answer JobResponse)
answer_queued job = do
  ignore (Jobs.update_status job.id JobStatus.queued)
  pos ← attempt (Jobs.get_queue_position job.id)
  return (accepted (waiting_response job (value_or_zero pos)))

abbrev pub submitted_payload : SubmitJobRequest → Job → Agent → JobDispatchPayload
submitted_payload req job agent = record {
  job_id = job.id;
  user_id = job.user_id;
  agent_id = agent.id;
  command = job.command;
  params = job.params;
  skill_id = job.skill_id;
  file_ids = req.file_ids;
  credential_ids = req.credential_ids;
  submitted_at = millis job.submitted_at;
}

abbrev pub publish_status : ℕ → ℕ → M (Unit {0})
publish_status job user w = (
  ok tt,
  record w {
    broker = publish_scoped (job_topic job) user (job_event WsEventType.job_status job) w.broker;
  },
)

abbrev pub dispatched_response : Job → Agent → JobResponse
dispatched_response job agent = record {
  job = job;
  agent_id = some agent.id;
  queue_position = none;
  estimated_wait_seconds = none;
}

-- A job that could not be sent waits for another try.
abbrev pub after_send : Gateway → ℕ → Job → Agent → Result (Unit {0}) → M (Answer JobResponse)
after_send g user job agent (err e) = do
  ignore (release agent.id)
  ignore (Jobs.clear_agent job.id)
  answer_queued job
after_send g user job agent (ok _) = do
  push g.deps.push_credentials job.id agent.id agent.device_id
  publish_status job.id user
  return (created (dispatched_response job agent))

unfoldable pub start_job :
    Gateway → Schedule → ℕ → SubmitJobRequest → Job → Agent → M (Answer JobResponse)
start_job g schedule user req job agent = do
  ignore (Jobs.set_agent job.id agent.id agent.device_id)
  ignore (push_job_inputs g.relay schedule job agent.device_id)
  frame ← new_frame FrameType.job_dispatch (Payload.dispatch (submitted_payload req job agent))
  r ← attempt (send agent.device_id frame)
  after_send g user job agent r

abbrev pub is_queue_full : Error → Bool
is_queue_full queue_full = true
is_queue_full _ = false

-- A job that is refused stays in the table.
abbrev pub with_allocation :
    Gateway → Schedule → ℕ → SubmitJobRequest → Result (Job × Option Agent) → M (Answer JobResponse)
with_allocation g schedule user req (err e) =
    refuse_with (if is_queue_full e then Refusal.queue_full else Refusal.internal_error)
with_allocation g schedule user req (ok (job, none)) = answer_queued job
with_allocation g schedule user req (ok (job, some agent)) = start_job g schedule user req job agent

abbrev pub after_create :
    Gateway → Schedule → ℕ → SubmitJobRequest → Result Job → M (Answer JobResponse)
after_create g schedule user req (err e) = refuse_with Refusal.internal_error
after_create g schedule user req (ok job) = do
  link_inputs job.id req.file_ids
  r ← attempt (allocate g.deps job)
  with_allocation g schedule user req r

unfoldable pub submit_command :
    Gateway → Schedule → ℕ → SubmitJobRequest → String → M (Answer JobResponse)
submit_command g schedule user req command = do
  r ← attempt (Jobs.create (new_job user command req.skill_id))
  after_create g schedule user req r

abbrev pub check_skill : (ℕ → ℕ → SkillCheck) → ℕ → Option ℕ → SkillCheck
check_skill skill_check user none = SkillCheck.visible true
check_skill skill_check user (some skill) = skill_check user skill

abbrev pub after_check : SkillCheck → M (Answer JobResponse) → M (Answer JobResponse)
after_check SkillCheck.no_user k = refuse_with Refusal.internal_error
after_check (SkillCheck.visible false) k = refuse_with Refusal.validation_failed
after_check (SkillCheck.visible true) k = k

abbrev pub submit_checked :
    Gateway
    → Schedule
    → (ℕ → ℕ → SkillCheck)
    → ℕ
    → SubmitJobRequest
    → Option String
    → M (Answer JobResponse)
submit_checked g schedule skill_check user req none = refuse_with Refusal.validation_failed
submit_checked g schedule skill_check user req (some command) =
    after_check (check_skill skill_check user req.skill_id)
      (submit_command g schedule user req command)

unfoldable pub handle_submit_job :
    Gateway → Schedule → (ℕ → ℕ → SkillCheck) → ℕ → SubmitJobRequest → M (Answer JobResponse)
handle_submit_job g schedule skill_check user req =
    submit_checked g schedule skill_check user req req.command

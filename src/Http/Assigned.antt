-- ===== src/Http/Assigned.antt =====
-- Submitting and cancelling jobs keeps the agents' assignments consistent with their statuses:
-- gateway/internal/httpapi/jobs_handler.go.
use Prim.Native.String.{String}
use one_click_agent.Prelude.{ℕ, true, false, Option, none, some, List, [], ◌∷◌, ◌==◌, arith}
use one_click_agent.Model.{Job, JobStatus, Agent, FrameType, Payload, is_terminal}
use one_click_agent.World.{Result, ok, err}
use one_click_agent.World.Keeps.{
  Keeps, step-Keeps, db-Keeps, bind-Keeps, then-Keeps, return-Keeps, fail-Keeps, attempt-Keeps,
  ignore-Keeps, if-Keeps, new_uuid-Keeps,
}
use one_click_agent.Store.Files
use one_click_agent.Pool.Assigned.{
  AreConsistent, release-Keeps, send-Keeps, new_frame-Keeps, update_job-Keeps, set_agent-Keeps,
  position-Keeps, push-Keeps, clear_agent-Keeps, allocate-Keeps,
}
use one_click_agent.Relay.Push.{Schedule}
use one_click_agent.Store.Jobs
use one_click_agent.Relay.Assigned.{push_job_inputs-Keeps}
use one_click_agent.Pool.Fleet.{value_or_zero}
use one_click_agent.Gateway.Handlers.{Gateway}
use one_click_agent.Gateway.Assigned.{cancelled_job-Keeps, get_job-Keeps}
use one_click_agent.Http.Answers.{with_own_job, for_owner, accepted}
use one_click_agent.Http.Jobs.{handle_cancel_job, cancel_job}
use one_click_agent.Http.Submit.{
  SubmitJobRequest, SkillCheck, link_inputs, answer_queued, start_job, after_send, with_allocation,
  after_create, submit_command, submitted_payload, after_check, check_skill, submit_checked,
  handle_submit_job, new_job, publish_status, waiting_response,
}

cancel_row-Keeps : (id user : ℕ) → Keeps AreConsistent (Jobs.cancel id user)
unfolding Jobs.cancel
cancel_row-Keeps id user = bind-Keeps AreConsistent (step-Keeps AreConsistent _ _ (λ w h. h)) λ n.
    if-Keeps AreConsistent (n == 0) (fail-Keeps AreConsistent _) (return-Keeps AreConsistent tt)

own_job-Keeps :
    (user : ℕ) (r : Result (Option Job)) → Keeps AreConsistent (for_owner user (cancel_job user) r)
own_job-Keeps user (ok none) = return-Keeps AreConsistent _
own_job-Keeps user (err e) = return-Keeps AreConsistent _
own_job-Keeps user (ok (some job)) =
    if-Keeps AreConsistent (job.user_id == user)
      (if-Keeps AreConsistent (is_terminal job.status) (return-Keeps AreConsistent _) (
        bind-Keeps AreConsistent (attempt-Keeps AreConsistent (cancel_row-Keeps job.id user))
          (cancelled_job-Keeps job)))
      (return-Keeps AreConsistent _)

pub handle_cancel_job-Keeps : (user id : ℕ) → Keeps AreConsistent (handle_cancel_job user id)
unfolding handle_cancel_job with_own_job
handle_cancel_job-Keeps user id =
    bind-Keeps AreConsistent (attempt-Keeps AreConsistent (get_job-Keeps id)) (own_job-Keeps user)

create_job-Keeps : (job : Job) → Keeps AreConsistent (Jobs.create job)
unfolding Jobs.create
create_job-Keeps job =
    bind-Keeps AreConsistent (new_uuid-Keeps AreConsistent)
      λ id. db-Keeps AreConsistent (record { keeps = λ w h. h })

link_inputs-Keeps : (job : ℕ) (files : List ℕ) → Keeps AreConsistent (link_inputs job files)
unfolding link_inputs Files.link_to_job
link_inputs-Keeps job [] = return-Keeps AreConsistent tt
link_inputs-Keeps job (file ∷ files) =
    then-Keeps AreConsistent
      (ignore-Keeps AreConsistent (db-Keeps AreConsistent (record { keeps = λ w h. ground arith })))
      (link_inputs-Keeps job files)

answer_queued-Keeps : (job : Job) → Keeps AreConsistent (answer_queued job)
unfolding answer_queued
answer_queued-Keeps job =
    then-Keeps AreConsistent (ignore-Keeps AreConsistent (update_job-Keeps job.id JobStatus.queued))
      (bind-Keeps AreConsistent (attempt-Keeps AreConsistent (position-Keeps job.id))
        λ pos. return-Keeps AreConsistent (accepted (waiting_response job (value_or_zero pos))))

module _ (g : Gateway) (schedule : Schedule) (user : ℕ) (req : SubmitJobRequest) where
  publish_status-Keeps : (job : ℕ) → Keeps AreConsistent (publish_status job user)
  publish_status-Keeps job = record { keeps = λ w h. h }

  after_send-Keeps :
      (job : Job) (agent : Agent) (r : Result (Unit {0}))
      → Keeps AreConsistent (after_send g user job agent r)
  after_send-Keeps job agent (err e) =
      then-Keeps AreConsistent (ignore-Keeps AreConsistent (release-Keeps agent.id)) (
        then-Keeps AreConsistent (ignore-Keeps AreConsistent (clear_agent-Keeps job.id))
          (answer_queued-Keeps job))
  after_send-Keeps job agent (ok _) =
      then-Keeps AreConsistent (push-Keeps g.deps.push_credentials job.id agent.id agent.device_id)
        (then-Keeps AreConsistent (publish_status-Keeps job.id) (return-Keeps AreConsistent _))

  start_job-Keeps :
      (job : Job) (agent : Agent) → Keeps AreConsistent (start_job g schedule user req job agent)
  unfolding start_job
  start_job-Keeps job agent =
      then-Keeps AreConsistent
        (ignore-Keeps AreConsistent (set_agent-Keeps job.id agent.id agent.device_id))
        (then-Keeps AreConsistent
          (ignore-Keeps AreConsistent (push_job_inputs-Keeps g.relay agent.device_id schedule job))
          (bind-Keeps AreConsistent
            (new_frame-Keeps FrameType.job_dispatch
              (Payload.dispatch (submitted_payload req job agent)))
            λ frame.
              bind-Keeps AreConsistent
                (attempt-Keeps AreConsistent (send-Keeps agent.device_id frame))
                (after_send-Keeps job agent)))

  with_allocation-Keeps :
      (r : Result (Job × Option Agent))
      → Keeps AreConsistent (with_allocation g schedule user req r)
  with_allocation-Keeps (err e) = return-Keeps AreConsistent _
  with_allocation-Keeps (ok (job, none)) = answer_queued-Keeps job
  with_allocation-Keeps (ok (job, some agent)) = start_job-Keeps job agent

  after_create-Keeps : (r : Result Job) → Keeps AreConsistent (after_create g schedule user req r)
  after_create-Keeps (err e) = return-Keeps AreConsistent _
  after_create-Keeps (ok job) = then-Keeps AreConsistent (link_inputs-Keeps job.id req.file_ids) (
      bind-Keeps AreConsistent (attempt-Keeps AreConsistent (allocate-Keeps g.deps job))
        with_allocation-Keeps)

  submit_command-Keeps :
      (command : String) → Keeps AreConsistent (submit_command g schedule user req command)
  unfolding submit_command
  submit_command-Keeps command =
      bind-Keeps AreConsistent
        (attempt-Keeps AreConsistent (create_job-Keeps (new_job user command req.skill_id)))
        after_create-Keeps

  after_check-Keeps :
      (c : SkillCheck) (command : String)
      → Keeps AreConsistent (after_check c (submit_command g schedule user req command))
  after_check-Keeps SkillCheck.no_user command = return-Keeps AreConsistent _
  after_check-Keeps (SkillCheck.visible false) command = return-Keeps AreConsistent _
  after_check-Keeps (SkillCheck.visible true) command = submit_command-Keeps command

  submit_checked-Keeps :
      (skill_check : ℕ → ℕ → SkillCheck) (command : Option String)
      → Keeps AreConsistent (submit_checked g schedule skill_check user req command)
  submit_checked-Keeps skill_check none = return-Keeps AreConsistent _
  submit_checked-Keeps skill_check (some command) =
      after_check-Keeps (check_skill skill_check user req.skill_id) command

  pub handle_submit_job-Keeps :
      (skill_check : ℕ → ℕ → SkillCheck)
      → Keeps AreConsistent (handle_submit_job g schedule skill_check user req)
  unfolding handle_submit_job
  handle_submit_job-Keeps skill_check = submit_checked-Keeps skill_check req.command

-- ===== src/Http/Examples.antt =====
-- Runs of the job handlers: gateway/internal/httpapi/jobs_handler.go.
use one_click_agent.Prelude.{◌≡◌, refl, some, none, [], ◌∷◌, find_first, false}
use one_click_agent.Model.{Job, JobStatus, UserTier, Agent, AgentStatus}
use one_click_agent.World.{World, ok}
use one_click_agent.Store.Jobs
use one_click_agent.Store.Agents
use one_click_agent.Gateway.Handlers.{on_job_accepted, on_vnc_opened}
use one_click_agent.Http.Answers.{okay, created}
use one_click_agent.Http.Jobs.{handle_cancel_job, handle_get_job, handle_get_job_result}
use one_click_agent.VncRelay.{reuse}
use one_click_agent.Http.VncOpening.{ready_report, handle_open_vnc-ready}
use one_click_agent.Http.Vnc.{answer_open, awaited, VncConfig, handle_open_vnc, handle_get_job_vnc}
use one_click_agent.Http.Outputs.{handle_list_job_outputs, handle_download_job_output}
use one_click_agent.Http.Submit.{SubmitJobRequest}
use one_click_agent.Http.Cancelled.{handle_cancel_job-cancels, handle_cancel_job-undone}
use one_click_agent.Http.Access.{with_own_job-IsDenied, IsDenied}
use one_click_agent.Samples.{job_of, agent_of, world_of, hub_with}

abbrev sent_out : Job
sent_out = record (job_of 1 5 UserTier.pro JobStatus.dispatched) {
  agent_id = some 3;
  device_id = some 1;
}

abbrev at_work : Agent
at_work = record (agent_of 3 1 AgentStatus.busy) { user_id = some 7; job_id = some 1 }

abbrev working : World
working = world_of (sent_out ∷ []) (at_work ∷ []) (hub_with [])

handle_cancel_job-cancels_example :
    let r = handle_cancel_job 7 1 working in
    (r.0 ≡ ok (okay tt))
    × (find_first (Jobs.has_id 1) r.1.jobs
        ≡ some (record sent_out {
          status = JobStatus.cancelled;
          finished_at = some 100;
          updated_at = 100;
        }))
    × (find_first (Agents.has_id 3) r.1.agents
        ≡ some (record at_work {
          status = AgentStatus.idle;
          user_id = none;
          job_id = none;
          allocated_at = none;
          updated_at = 100;
        }))
handle_cancel_job-cancels_example =
    handle_cancel_job-cancels sent_out 3 at_work working refl refl refl refl refl

handle_cancel_job-undone_example :
    let v = (handle_cancel_job 7 1 working).1 in
    let w' = (on_job_accepted 1 v).1 in
    (find_first (Jobs.has_id 1) w'.jobs
      ≡ some (record sent_out {
        status = JobStatus.running;
        finished_at = some 100;
        updated_at = 100;
      }))
    × (find_first (Agents.has_id 3) w'.agents
        ≡ some (record at_work {
          status = AgentStatus.idle;
          user_id = none;
          job_id = none;
          allocated_at = none;
          updated_at = 100;
        }))
handle_cancel_job-undone_example =
    handle_cancel_job-undone sent_out 3 at_work working refl refl refl refl refl

abbrev brief_sessions : VncConfig
brief_sessions = record {
  hash_token = λ token. token;
  same_text = λ a b. false;
  idle_ttl_secs = 60;
  max_ttl_secs = 600;
}

with_own_job-IsDenied_example :
    IsDenied (handle_get_job 8 1) working
    × IsDenied (handle_cancel_job 8 1) working
    × IsDenied (handle_get_job_result 8 1) working
    × IsDenied (handle_list_job_outputs 8 1) working
    × IsDenied (handle_download_job_output 8 1 9) working
    × IsDenied (handle_open_vnc brief_sessions 8 1) working
    × IsDenied (handle_get_job_vnc brief_sessions 8 1) working
with_own_job-IsDenied_example =
    with_own_job-IsDenied 8 1 9 brief_sessions sent_out working refl refl

abbrev request : SubmitJobRequest
request = record {
  command = some "open the page";
  skill_id = none;
  file_ids = [];
  credential_ids = [];
}

-- The user's one queued job is all that the cap allows.
abbrev full_queue : World
full_queue = world_of (job_of 1 5 UserTier.pro JobStatus.queued ∷ []) [] (hub_with [])

-- The job runs, and no session of it is open.
abbrev running_job : World
running_job =
    world_of (record sent_out { status = JobStatus.running } ∷ []) (at_work ∷ []) (hub_with [])

handle_open_vnc-ready_example :
    let opening = handle_open_vnc brief_sessions 7 1 running_job in
    let second = on_vnc_opened (ready_report 500 "pass") opening.1 in
    (opening.0 ≡ ok (created (awaited 500 501)))
    × (second.0 ≡ ok tt)
    × ((answer_open 500 second.1).0 ≡ ok (created "pass"))
unfolding reuse
handle_open_vnc-ready_example =
    handle_open_vnc-ready brief_sessions 7 1 3 1 (record sent_out { status = JobStatus.running })
      "pass" running_job refl refl refl refl refl refl refl

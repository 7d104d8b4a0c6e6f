-- ===== src/Gateway/Examples.antt =====
-- Runs of the gateway's handlers: gateway/cmd/gateway/main.go.
use one_click_agent.Prelude.{lookup, ◌≡◌, refl, some, none, [], ◌∷◌, find_first, true}
use one_click_agent.Model.{
  VncOpenedPayload, Job, JobStatus, UserTier, Agent, AgentStatus, JobResultPayload, Frame,
  FrameType,
}
use one_click_agent.World.{World, ok, err, db_error}
use one_click_agent.Store.Jobs
use one_click_agent.Store.Agents
use one_click_agent.Pool.Assigned.{AreConsistent, IsConsistent}
use one_click_agent.Http.Submit.{SkillCheck}
use one_click_agent.Gateway.Handlers.{on_job_result}
use one_click_agent.Gateway.LateResult.{on_job_result-late}
use one_click_agent.Gateway.Operations.{Operation, run, run-AreConsistent}
use one_click_agent.Gateway.Inbound.{Decoder, acked, handle_frame}
use one_click_agent.VncRelay.{Session, new_session, wait_ready, unblocked}
use one_click_agent.Gateway.Foreign.{handle_frame-readies_any}
use one_click_agent.Gateway.LostResult.{handle_frame-loses_result}
use one_click_agent.Samples.{ping, conn_of, job_of, agent_of, world_of, hub_with, plain_gateway}

abbrev cancelled_before : Job
cancelled_before = record (job_of 1 5 UserTier.pro JobStatus.cancelled) { agent_id = some 3 }

-- The agent works for job 2 by now.
abbrev reassigned : Agent
reassigned = record (agent_of 3 1 AgentStatus.busy) { user_id = some 7; job_id = some 2 }

abbrev late : JobResultPayload
late = record { job_id = 1; status = JobStatus.succeeded; result = none; error_msg = none }

abbrev before_late : World
before_late = world_of (cancelled_before ∷ []) (reassigned ∷ []) (hub_with [])

on_job_result-late_example :
    let w' = (on_job_result late before_late).1 in
    (find_first (Jobs.has_id 1) w'.jobs
      ≡ some (record cancelled_before {
        status = JobStatus.succeeded;
        result = none;
        finished_at = some 100;
        updated_at = 100;
      }))
    × (find_first (Agents.has_id 3) w'.agents
        ≡ some (record reassigned {
          status = AgentStatus.idle;
          user_id = none;
          job_id = none;
          allocated_at = none;
          updated_at = 100;
        }))
on_job_result-late_example =
    on_job_result-late late before_late cancelled_before reassigned 3 refl refl refl refl

spare-IsConsistent : IsConsistent (agent_of 3 1 AgentStatus.idle)
spare-IsConsistent = record {
  idle_unassigned = λ e. (refl, refl);
  busy_assigned = λ e. absurd (cc);
}

abbrev waiting_world : World
waiting_world =
    world_of (job_of 1 5 UserTier.pro JobStatus.queued ∷ []) (agent_of 3 1 AgentStatus.idle ∷ [])
      (hub_with [])

-- The queue is emptied, the job is accepted, and its result comes in.
run-AreConsistent_example :
    let w' =
      run plain_gateway
        (λ user skill. SkillCheck.visible true)
        (Operation.dequeue 3 ∷ Operation.accepted 1 ∷ Operation.finished late ∷ [])
        waiting_world in
    AreConsistent w'.jobs w'.agents
run-AreConsistent_example =
    run-AreConsistent plain_gateway (λ user skill. SkillCheck.visible true)
      (Operation.dequeue 3 ∷ Operation.accepted 1 ∷ Operation.finished late ∷ []) waiting_world
      (spare-IsConsistent, tt)

-- Only results decode.
abbrev results_only : Decoder
results_only = record {
  hello = λ p. none;
  progress = λ p. none;
  result = λ p. some late;
  accepted = λ p. none;
  rejected = λ p. none;
  agent_status = λ p. none;
  state_sync = λ p. none;
  file_ack = λ p. none;
  pull_begin = λ p. none;
  pull_chunk = λ p. none;
  pull_end = λ p. none;
  login_required = λ p. none;
  skill_state = λ p. none;
  vnc_opened = λ p. none;
}

abbrev result_frame : Frame
result_frame = record (ping 77) { type = FrameType.job_result }

-- The next database call fails.
abbrev faulty : World
faulty = record before_late { faults = true ∷ [] }

handle_frame-loses_result_example :
    let first = handle_frame plain_gateway results_only 10 result_frame faulty in
    let again = handle_frame plain_gateway results_only 10 result_frame first.1 in
    (first.0 ≡ ok (acked 77 ∷ [], err db_error))
    × (again.0 ≡ ok (acked 77 ∷ [], ok tt))
    × (again.1.jobs ≡ cancelled_before ∷ [])
unfolding lookup
handle_frame-loses_result_example =
    handle_frame-loses_result plain_gateway results_only 10 result_frame late (conn_of 1 []) []
      faulty refl refl refl refl refl

-- A session of device 9, which the connection of device 1 reports to be ready.
abbrev other_session : Session
other_session =
    new_session
      (record { job_id = 1; user_id = 7; device_id = 9; agent_id = 3; idle_ttl = 0; max_ttl = 0 })
      21 0 0 0

abbrev foreign_report : VncOpenedPayload
foreign_report = record { session_id = 21; is_ready = true; rfb_password = "mine"; error = none }

abbrev before_report : World
before_report = record (world_of [] [] (hub_with [])) {
  vnc = record { sessions = (21, other_session) ∷ []; shut = []; buffer_cap = 0 };
}

abbrev reports_only : Decoder
reports_only = record results_only { vnc_opened = λ p. some foreign_report }

abbrev report_frame : Frame
report_frame = record (ping 78) { type = FrameType.vnc_opened }

handle_frame-readies_any_example :
    let end = handle_frame plain_gateway reports_only 10 report_frame before_report in
    (end.0 ≡ ok (acked 78 ∷ [], ok tt)) × (wait_ready 21 end.1.vnc ≡ unblocked "mine")
unfolding lookup
handle_frame-readies_any_example =
    handle_frame-readies_any 10 report_frame foreign_report (conn_of 1 []) other_session
      before_report plain_gateway reports_only refl refl refl refl refl refl refl

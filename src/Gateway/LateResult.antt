-- ===== src/Gateway/LateResult.antt =====
-- A result that comes in for a job: `OnJobResult` of gateway/cmd/gateway/main.go.
use one_click_agent.Prelude.{ℕ, ◌≡◌, refl, sym, ap, subst, ◌∙◌, none, some, List, [], find_first}
use one_click_agent.Model.{Job, Agent, AgentStatus, JobResultPayload, WsEventType, job_topic}
use one_click_agent.World.{World, db, ignore}
use one_click_agent.World.Keeps.{Rows, ignore-Keeps}
use one_click_agent.Store.Rows.{update_where}
use one_click_agent.Store.Members.{updated_row}
use one_click_agent.Store.Jobs
use one_click_agent.Store.Agents
use one_click_agent.Pool.Allocate.{release}
use one_click_agent.PubSub.{publish}
use one_click_agent.Relay.Staging.{cleanup_job_files}
use one_click_agent.Relay.Untouched.{cleanup_job_files-Keeps}
use one_click_agent.Gateway.Handlers.{on_job_result, publish_job, job_event, give_back}

-- Both tables are these.
abbrev Exactly : List Job → List Agent → Rows
Exactly js ags jobs agents = (jobs ≡ js) × (agents ≡ ags)

on_job_result-calm :
    (p : JobResultPayload) (w : World) (job : Job) (agent : Agent) (a : ℕ)
    → find_first (Jobs.has_id p.job_id) w.jobs ≡ some job
    → job.agent_id ≡ some a
    → find_first (Agents.has_id a) w.agents ≡ some agent
    → let w' = (on_job_result p (record w { faults = [] })).1 in
      (find_first (Jobs.has_id p.job_id) w'.jobs
        ≡ some (Jobs.with_result p.status p.result w.now job))
      × (find_first (Agents.has_id a) w'.agents ≡ some (Agents.released w.now agent))
unfolding on_job_result Jobs.update_result publish_job Jobs.get_by_id release Agents.release db
on_job_result-calm p w job agent a there holds at_hand =
    let jobs =
      update_where (Jobs.has_id p.job_id) (Jobs.with_result p.status p.result w.now) w.jobs in
    let agents = update_where (Agents.has_id a) (Agents.released w.now) w.agents in
    let found : find_first (Jobs.has_id p.job_id) jobs
        ≡ some (Jobs.with_result p.status p.result w.now job) =
      updated_row (Jobs.has_id p.job_id) (Jobs.with_result p.status p.result w.now) job w.jobs
        (λ y. refl) there in
    let freed : find_first (Agents.has_id a) agents ≡ some (Agents.released w.now agent) =
      updated_row (Agents.has_id a) (Agents.released w.now) agent w.agents (λ y. refl) at_hand in
    let event = job_event WsEventType.job_result p.job_id in
    let v₀ = record w {
      jobs = jobs;
      broker = publish (job_topic p.job_id) event w.broker;
      faults = [];
    } in
    let v = record v₀ { agents = agents } in
    let after = ignore (cleanup_job_files p.job_id) in
    let up_to : on_job_result p (record w { faults = [] }) ≡ give_back job.agent_id after v₀ =
      rw found refl in
    let P = Exactly jobs agents in
    let kept = (ignore-Keeps P (cleanup_job_files-Keeps P p.job_id)).keeps v (refl, refl) in
    subst
      (λ r.
        (find_first (Jobs.has_id p.job_id) r.1.jobs
          ≡ some (Jobs.with_result p.status p.result w.now job))
        × (find_first (Agents.has_id a) r.1.agents ≡ some (Agents.released w.now agent)))
      (sym (up_to ∙ ap (λ o. give_back o after v₀) holds))
      (
        ap (λ js. find_first (Jobs.has_id p.job_id) js) kept.0 ∙ found,
        ap (λ ags. find_first (Agents.has_id a) ags) kept.1 ∙ freed,
      )

-- Where no call of the environment fails, the job is in the table, and it has an agent in the table:
-- a result for the job overwrites its status and result and gives the agent back to the pool,
-- whatever the status was, terminal or not, and whichever job the agent works for by then.
pub on_job_result-late :
    (p : JobResultPayload) (w : World) (job : Job) (agent : Agent) (a : ℕ)
    → w.faults ≡ []
    → find_first (Jobs.has_id p.job_id) w.jobs ≡ some job
    → job.agent_id ≡ some a
    → find_first (Agents.has_id a) w.agents ≡ some agent
    → let w' = (on_job_result p w).1 in
      (find_first (Jobs.has_id p.job_id) w'.jobs
        ≡ some (record job {
          status = p.status;
          result = p.result;
          finished_at = some w.now;
          updated_at = w.now;
        }))
      × (find_first (Agents.has_id a) w'.agents
          ≡ some (record agent {
            status = AgentStatus.idle;
            user_id = none;
            job_id = none;
            allocated_at = none;
            updated_at = w.now;
          }))
on_job_result-late p w job agent a calm there holds at_hand =
    subst
      (λ fs.
        let w' = (on_job_result p (record w { faults = fs })).1 in
        (find_first (Jobs.has_id p.job_id) w'.jobs
          ≡ some (Jobs.with_result p.status p.result w.now job))
        × (find_first (Agents.has_id a) w'.agents ≡ some (Agents.released w.now agent)))
      (sym calm) (on_job_result-calm p w job agent a there holds at_hand)

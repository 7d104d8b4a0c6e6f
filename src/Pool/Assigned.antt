-- ===== src/Pool/Assigned.antt =====
-- The pool's operations keep the agents' assignments consistent with their statuses.
use one_click_agent.Prelude.{
  ℕ, ◌≡◌, Bool, true, false, [], none, arith, All, is_some, Option, suc, Bool-cases, inl, inr, zero,
  ltb, leb, some,
}
use one_click_agent.Model.{JobStatus, Agent, AgentStatus, Frame, Job, FrameType, Payload}
use one_click_agent.Tunnel.Registry.{in_memory}
use one_click_agent.Tunnel.Hub.{Hub}
use one_click_agent.World.{World, Result, ok, err}
use one_click_agent.Pool.Frames.{
  dispatch_job, Deps, push, input_ids, listed_ids, dispatch_payload, new_frame, framed, send,
}
use one_click_agent.Pool.Allocate.{check_cap, allocate, allocate_found, release, waits}
use one_click_agent.Pool.Dequeue.{
  expire_stale, after_dispatch, assign, with_idle, with_next, dequeue_round, dequeue_loop,
  dequeue_next, goes_on,
}
use one_click_agent.World.Keeps.{
  if-Keeps, Rows, Keeps, step-Keeps, bind-Keeps, new_uuid-Keeps, then-Keeps, return-Keeps,
  fail-Keeps, attempt-Keeps, ignore-Keeps,
}
use one_click_agent.Store.Rows.{update_where-All}
use one_click_agent.Store.Files.{list_by_job}
use one_click_agent.Store.Jobs
use one_click_agent.Store.Agents

-- An idle agent belongs to nobody; a busy one has a user and a job.
pub record IsConsistent (a : Agent) : Type 0 where
  pub idle_unassigned : a.status ≡ AgentStatus.idle → (a.user_id ≡ none) × (a.job_id ≡ none)
  pub busy_assigned :
      a.status ≡ AgentStatus.busy → (is_some a.user_id ≡ true) × (is_some a.job_id ≡ true)

abbrev pub AreConsistent : Rows
AreConsistent jobs agents = All IsConsistent agents

pub agents_step :
    (p : Agent → Bool) (f : ℕ → Agent → Agent)
    → ((now : ℕ) (a : Agent) → IsConsistent a → IsConsistent (f now a))
    → Keeps AreConsistent (Agents.exec (Agents.update_agents p f))
agents_step p f k =
    step-Keeps AreConsistent _ _
      λ w h. update_where-All IsConsistent p (f w.now) w.agents (λ a _ c. k w.now a c) h

allocate_row-Keeps : (id user job : ℕ) → Keeps AreConsistent (Agents.allocate id user job)
unfolding Agents.allocate
allocate_row-Keeps id user job =
    agents_step (Agents.has_id id) (Agents.allocated user job) (λ now a c. ground arith)

release_row-Keeps : (id : ℕ) → Keeps AreConsistent (Agents.release id)
unfolding Agents.release
release_row-Keeps id = agents_step (Agents.has_id id) Agents.released (λ now a c. ground arith)

find_idle-Keeps : Keeps AreConsistent Agents.find_idle
unfolding Agents.find_idle
find_idle-Keeps = step-Keeps AreConsistent _ _ (λ w h. h)

dequeue-Keeps : Keeps AreConsistent Jobs.dequeue_next
unfolding Jobs.dequeue_next
dequeue-Keeps = step-Keeps AreConsistent _ _ (λ w h. h)

pub set_agent-Keeps : (id agent device : ℕ) → Keeps AreConsistent (Jobs.set_agent id agent device)
unfolding Jobs.set_agent
set_agent-Keeps id agent device = step-Keeps AreConsistent _ _ (λ w h. h)

pub clear_agent-Keeps : (id : ℕ) → Keeps AreConsistent (Jobs.clear_agent id)
unfolding Jobs.clear_agent
clear_agent-Keeps id = step-Keeps AreConsistent _ _ (λ w h. h)

pub update_job-Keeps : (id : ℕ) (s : JobStatus) → Keeps AreConsistent (Jobs.update_status id s)
unfolding Jobs.update_status
update_job-Keeps id s = step-Keeps AreConsistent _ _ (λ w h. h)

count_queued-Keeps : (user : ℕ) → Keeps AreConsistent (Jobs.count_queued_by_user user)
unfolding Jobs.count_queued_by_user
count_queued-Keeps user = step-Keeps AreConsistent _ _ (λ w h. h)

pub position-Keeps : (id : ℕ) → Keeps AreConsistent (Jobs.get_queue_position id)
unfolding Jobs.get_queue_position
position-Keeps id = step-Keeps AreConsistent _ _ (λ w h. h)

expire_queued-Keeps : Keeps AreConsistent Jobs.expire_queued
unfolding Jobs.expire_queued
expire_queued-Keeps = step-Keeps AreConsistent _ _ (λ w h. h)

expire_dispatched-Keeps : (t : ℕ) → Keeps AreConsistent (Jobs.expire_dispatched t)
unfolding Jobs.expire_dispatched
expire_dispatched-Keeps t = step-Keeps AreConsistent _ _ (λ w h. h)

pub send-Keeps : (device : ℕ) (f : Frame) → Keeps AreConsistent (send device f)
unfolding send
send-Keeps device f = record { keeps = λ w h. ground arith }

pub push-Keeps :
    (hook : Option (ℕ → ℕ → ℕ → Hub in_memory → Hub in_memory)) (job agent device : ℕ)
    → Keeps AreConsistent (push hook job agent device)
push-Keeps none job agent device = record { keeps = λ w h. h }
push-Keeps (some f) job agent device = record { keeps = λ w h. h }

ruleset calls = (
  bind-Keeps, then-Keeps, return-Keeps, fail-Keeps, attempt-Keeps, ignore-Keeps, new_uuid-Keeps,
  allocate_row-Keeps, release_row-Keeps, find_idle-Keeps, dequeue-Keeps, set_agent-Keeps,
  clear_agent-Keeps, update_job-Keeps, count_queued-Keeps, position-Keeps, expire_queued-Keeps,
  expire_dispatched-Keeps, send-Keeps, push-Keeps,
)

pub new_frame-Keeps :
    (type : FrameType) (payload : Payload) → Keeps AreConsistent (new_frame type payload)
unfolding new_frame framed
new_frame-Keeps type payload = record { keeps = λ w h. h }

input_ids-Keeps : (has_files : Bool) (job : ℕ) → Keeps AreConsistent (input_ids has_files job)
unfolding list_by_job
input_ids-Keeps false job = return-Keeps AreConsistent []
input_ids-Keeps true job =
    bind-Keeps AreConsistent (attempt-Keeps AreConsistent (step-Keeps AreConsistent _ _ (λ w h. h)))
      (λ files. return-Keeps AreConsistent (listed_ids files))

dispatch_job-Keeps :
    (deps : Deps) (job : Job) (agent : Agent) → Keeps AreConsistent (dispatch_job deps job agent)
unfolding dispatch_job
dispatch_job-Keeps deps job agent =
    bind-Keeps AreConsistent (input_ids-Keeps deps.has_files job.id) λ files.
      bind-Keeps AreConsistent
        (new_frame-Keeps FrameType.job_dispatch
          (Payload.dispatch (dispatch_payload deps job agent files)))
        λ frame.
          then-Keeps AreConsistent (send-Keeps agent.device_id frame)
            (push-Keeps deps.push_credentials job.id agent.id agent.device_id)

waits-Keeps : (deps : Deps) (job : Job) (pos : Result ℕ) → Keeps AreConsistent (waits deps job pos)
unfolding waits
waits-Keeps deps job pos = record { keeps = λ w h. h }

after_dispatch-Keeps :
    (job : Job) (agent : Agent) (r : Result (Unit {0}))
    → Keeps AreConsistent (after_dispatch job agent r)
after_dispatch-Keeps job agent (ok _) = return-Keeps AreConsistent _
after_dispatch-Keeps job agent (err e) = search calls depth 9

assign-Keeps :
    (deps : Deps) (job : Job) (agent : Agent) → Keeps AreConsistent (assign deps job agent)
unfolding assign
assign-Keeps deps job agent = search (calls, dispatch_job-Keeps, after_dispatch-Keeps) depth 9

with_idle-Keeps :
    (deps : Deps) (job : Job) (a : Option Agent) → Keeps AreConsistent (with_idle deps job a)
with_idle-Keeps deps job none = return-Keeps AreConsistent _
with_idle-Keeps deps job (some agent) = assign-Keeps deps job agent

with_next-Keeps : (deps : Deps) (j : Option Job) → Keeps AreConsistent (with_next deps j)
with_next-Keeps deps none = return-Keeps AreConsistent _
with_next-Keeps deps (some job) =
    bind-Keeps AreConsistent find_idle-Keeps (with_idle-Keeps deps job)

dequeue_round-Keeps : (deps : Deps) → Keeps AreConsistent (dequeue_round deps)
unfolding dequeue_round
dequeue_round-Keeps deps = bind-Keeps AreConsistent dequeue-Keeps (with_next-Keeps deps)

check_cap-Keeps : (deps : Deps) (user : ℕ) → Keeps AreConsistent (check_cap deps user)
check_cap-Keeps deps user =
    if-Keeps AreConsistent (ltb 0 deps.max_queue)
      (bind-Keeps AreConsistent (count_queued-Keeps user) λ count.
        if-Keeps AreConsistent (leb deps.max_queue count) (fail-Keeps AreConsistent _)
          (return-Keeps AreConsistent tt))
      (return-Keeps AreConsistent tt)

allocate_found-Keeps :
    (deps : Deps) (job : Job) (a : Option Agent) → Keeps AreConsistent (allocate_found deps job a)
allocate_found-Keeps deps job none =
    bind-Keeps AreConsistent (attempt-Keeps AreConsistent (position-Keeps job.id))
      (waits-Keeps deps job)
allocate_found-Keeps deps job (some agent) = search calls depth 9

-- An allocation keeps every agent's assignment consistent with its status, on every path, whichever
-- database calls fail.
pub allocate-Keeps : (deps : Deps) (job : Job) → Keeps AreConsistent (allocate deps job)
unfolding allocate
allocate-Keeps deps job =
    then-Keeps AreConsistent (check_cap-Keeps deps job.user_id)
      (bind-Keeps AreConsistent find_idle-Keeps (allocate_found-Keeps deps job))

pub expire_stale-Keeps : (deps : Deps) → Keeps AreConsistent (expire_stale deps)
unfolding expire_stale
expire_stale-Keeps deps =
    then-Keeps AreConsistent (ignore-Keeps AreConsistent expire_queued-Keeps)
      (ignore-Keeps AreConsistent (expire_dispatched-Keeps deps.dispatch_timeout))

pub release-Keeps : (id : ℕ) → Keeps AreConsistent (release id)
unfolding release
release-Keeps id = release_row-Keeps id

dequeue_loop-AreConsistent :
    (fuel : ℕ) (deps : Deps) (w : World)
    → AreConsistent w.jobs w.agents
    → let w' = (dequeue_loop fuel deps w).1 in AreConsistent w'.jobs w'.agents
unfolding dequeue_loop
dequeue_loop-AreConsistent zero deps w h = h
dequeue_loop-AreConsistent (suc fuel) deps w h =
    let w₁ = (dequeue_round deps w).1 in
    let h₁ = (dequeue_round-Keeps deps).keeps w h in
    elim (Bool-cases (goes_on (dequeue_round deps w).0)) [
      | inl e ↦ rw (e, dequeue_loop) (dequeue_loop-AreConsistent fuel deps w₁ h₁)
      | inr e ↦ rw (e, dequeue_loop) h₁
    ]

-- Where every agent's assignment is consistent with its status, it still is after the queue is
-- emptied, however many rounds that makes, whichever database calls fail and whichever dispatches
-- are refused.
pub dequeue_next-AreConsistent :
    (fuel : ℕ) (deps : Deps) (w : World)
    → AreConsistent w.jobs w.agents
    → let w' = (dequeue_next fuel deps w).1 in AreConsistent w'.jobs w'.agents
unfolding dequeue_next
dequeue_next-AreConsistent fuel deps w h =
    dequeue_loop-AreConsistent fuel deps (expire_stale deps w).1
      ((expire_stale-Keeps deps).keeps w h)

-- ===== src/Pool/Livelock.antt =====
-- What `dequeueNext` of gateway/internal/pool/allocator.go does while every device is offline.
use mathlib.Core.List.{Memᴰ}
use one_click_agent.Prelude.{
  ℕ, zero, suc, ◌≡◌, refl, true, false, none, some, List, [], arith, All, select, subst, sym, ◌∙◌,
  All-select, lookup, ==_self, Bool-cases, inl, inr, lt→ltb, ap, ◌+◌, ◌*◌,
}
use one_click_agent.Model.{second, Job, JobStatus, Agent}
use one_click_agent.Tunnel.Registry.{in_memory}
use one_click_agent.Tunnel.Hub.{Hub, get_connection, send_frame}
use one_click_agent.World.{World, ok, db}
use one_click_agent.Store.Rows.{update_where, first_by, first_by-All, update_where-All}
use one_click_agent.Store.Members.{Mem-updated, Mem-untouched, first_by-found}
use one_click_agent.Store.Files.{list_by_job}
use one_click_agent.Store.Jobs
use one_click_agent.Store.Jobs.{is_waiting, queue_before}
use one_click_agent.Store.Agents
use one_click_agent.Store.Agents.{is_free, older}
use one_click_agent.Pool.Frames.{Deps, dispatch_job, new_frame, framed, send}
use one_click_agent.Pool.Dequeue.{
  again, dequeue_round, dequeue_loop, dequeue_next, assign, expire_stale, goes_on,
}

-- A state in which no database call will fail, with the other tables of another state.
abbrev calm : World → List Job → List Agent → Hub in_memory → ℕ → ℕ → World
calm v jobs agents hub now fresh = record v {
  jobs = jobs;
  agents = agents;
  hub = hub;
  now = now;
  fresh = fresh;
  faults = [];
}

-- The tables after a round whose dispatch failed.
abbrev requeued : ℕ → ℕ → Agent → List Job → List Job
requeued now id agent jobs = update_where (Jobs.has_id id) (Jobs.with_status JobStatus.queued now) (
    update_where (Jobs.has_id id) (Jobs.without_agent now)
      (update_where (Jobs.has_id id) (Jobs.with_agent agent.id agent.device_id now) jobs))

abbrev given_back : ℕ → ℕ → Job → List Agent → List Agent
given_back now id job agents =
    update_where (Agents.has_id id) (Agents.released now)
      (update_where (Agents.has_id id) (Agents.allocated job.user_id job.id now) agents)

dequeue_round-offline :
    (deps : Deps) (v : World) (jobs : List Job) (agents : List Agent) (hub : Hub in_memory)
    (now fresh : ℕ)
    → (j : Job) (a : Agent) → first_by queue_before (select (is_waiting now) jobs) ≡ some j
    → first_by older (select is_free agents) ≡ some a
    → get_connection a.device_id hub ≡ none
    → dequeue_round deps (calm v jobs agents hub now fresh) ≡ (
      ok again,
      calm v (requeued now j.id a jobs) (given_back now a.id j agents) hub now (suc fresh),
    )
unfolding dequeue_round Jobs.dequeue_next Agents.find_idle assign Agents.allocate Jobs.set_agent
    dispatch_job list_by_job new_frame framed send send_frame Agents.release Jobs.clear_agent
    Jobs.update_status db lookup update_where
dequeue_round-offline deps v jobs agents hub now fresh j a next idle offline =
    elim (Bool-cases deps.has_files) [
      | inl e ↦ rw (e, next, idle, offline) refl
      | inr e ↦ rw (e, next, idle, offline) refl
    ]

-- A job waits, an agent is free, and no agent's device has a connection.
record IsStuck (now : ℕ) (hub : Hub in_memory) (jobs : List Job) (agents : List Agent)
    : Type 0 where
  job : Job
  job_there : Memᴰ job jobs
  job_waits : is_waiting now job ≡ true
  agent : Agent
  agent_there : Memᴰ agent agents
  agent_free : is_free agent ≡ true
  offline : All (λ a. get_connection a.device_id hub ≡ none) agents

updated_job :
    (now : ℕ) (a : Agent) (j : Job) (jobs : List Job)
    → Memᴰ j jobs
    → Memᴰ
        (Jobs.with_status JobStatus.queued now
          (Jobs.without_agent now (Jobs.with_agent a.id a.device_id now j)))
        (requeued now j.id a jobs)
updated_job now a j jobs m =
    let p = Jobs.has_id j.id in
    Mem-updated p (Jobs.with_status JobStatus.queued now) _ _
      (Mem-updated p (Jobs.without_agent now) _ _
        (Mem-updated p (Jobs.with_agent a.id a.device_id now) j jobs m (==_self j.id))
        (==_self j.id))
      (==_self j.id)

updated_agent :
    (now : ℕ) (a : Agent) (j : Job) (agents : List Agent)
    → Memᴰ a agents
    → Memᴰ
        (Agents.released now (Agents.allocated j.user_id j.id now a))
        (given_back now a.id j agents)
updated_agent now a j agents m =
    let p = Agents.has_id a.id in
    Mem-updated p (Agents.released now) _ _
      (Mem-updated p (Agents.allocated j.user_id j.id now) a agents m (==_self a.id)) (==_self a.id)

still_offline :
    (now id : ℕ) (hub : Hub in_memory) (j : Job) (agents : List Agent)
    → All (λ a. get_connection a.device_id hub ≡ none) agents
    → All (λ a. get_connection a.device_id hub ≡ none) (given_back now id j agents)
still_offline now id hub j agents h =
    let P : Agent → Type 0 = λ a. get_connection a.device_id hub ≡ none in
    update_where-All P (Agents.has_id id) (Agents.released now) _ (λ a _ o. o)
      (update_where-All P (Agents.has_id id) (Agents.allocated j.user_id j.id now) agents
        (λ a _ o. o) h)

-- A round after which the loop goes on.
dequeue_loop-again :
    (fuel : ℕ) (deps : Deps) (w w' : World)
    → dequeue_round deps w ≡ (ok again, w')
    → dequeue_loop (suc fuel) deps w ≡ dequeue_loop fuel deps w'
unfolding dequeue_loop
dequeue_loop-again fuel deps w w' e =
    ap (λ r. elim (goes_on r.0) [ true ↦ dequeue_loop fuel deps r.1 | false ↦ (true, r.1) ]) e

dequeue_loop-stuck :
    (fuel : ℕ) (deps : Deps) (v : World) (jobs : List Job) (agents : List Agent)
    (hub : Hub in_memory)
    → (now fresh : ℕ) → IsStuck now hub jobs agents
    → (dequeue_loop fuel deps (calm v jobs agents hub now fresh)).0 ≡ false
unfolding dequeue_loop
dequeue_loop-stuck zero deps v jobs agents hub now fresh s = refl
dequeue_loop-stuck (suc fuel) deps v jobs agents hub now fresh s =
    let (j, next, j_there, _) =
      first_by-found queue_before (is_waiting now) s.job jobs s.job_there s.job_waits in
    let (a, idle, a_there, _) =
      first_by-found older is_free s.agent agents s.agent_there s.agent_free in
    let off =
      first_by-All (λ b. get_connection b.device_id hub ≡ none) older _ a
        (All-select (λ b. get_connection b.device_id hub ≡ none) is_free agents s.offline) idle in
    let w = calm v jobs agents hub now fresh in
    let w' = calm v (requeued now j.id a jobs) (given_back now a.id j agents) hub now (suc fresh) in
    let round = dequeue_round-offline deps v jobs agents hub now fresh j a next idle off in
    ap (λ r. r.0) (dequeue_loop-again fuel deps w w' round)
    ∙ (dequeue_loop-stuck fuel deps v (requeued now j.id a jobs) (given_back now a.id j agents) hub
        now (suc fresh)
        (record {
          job = _;
          job_there = updated_job now a j jobs j_there;
          job_waits = lt→ltb now (now + 3600 * second) (omega arith);
          agent = _;
          agent_there = updated_agent now a j agents a_there;
          agent_free = refl;
          offline = still_offline now a.id hub j agents s.offline;
        }))

-- The rows that an expiry leaves.
abbrev expired : ℕ → ℕ → List Job → List Job
expired timeout now jobs =
    update_where (Jobs.is_lost timeout now) (Jobs.timed_out "DISPATCH_TIMEOUT" now)
      (update_where (Jobs.is_overdue now) (Jobs.timed_out "QUEUE_TIMEOUT" now) jobs)

expired-keeps_waiting :
    (timeout now : ℕ) (j : Job) (jobs : List Job)
    → Memᴰ j jobs
    → is_waiting now j ≡ true
    → Memᴰ j (expired timeout now jobs)
expired-keeps_waiting timeout now j jobs m h =
    Mem-untouched (Jobs.is_lost timeout now) (Jobs.timed_out "DISPATCH_TIMEOUT" now) j _
      (Mem-untouched (Jobs.is_overdue now) (Jobs.timed_out "QUEUE_TIMEOUT" now) j jobs m
        (ground arith))
      (ground arith)

dequeue_next-calm :
    (fuel : ℕ) (deps : Deps) (v : World) (jobs : List Job) (agents : List Agent)
    (hub : Hub in_memory)
    → (now fresh : ℕ) → IsStuck now hub jobs agents
    → (dequeue_next fuel deps (calm v jobs agents hub now fresh)).0 ≡ false
unfolding dequeue_next expire_stale Jobs.expire_queued Jobs.expire_dispatched db
dequeue_next-calm fuel deps v jobs agents hub now fresh s =
    dequeue_loop-stuck fuel deps v (expired deps.dispatch_timeout now jobs) agents hub now fresh
      (record {
        job = s.job;
        job_there =
            expired-keeps_waiting deps.dispatch_timeout now s.job jobs s.job_there s.job_waits;
        job_waits = s.job_waits;
        agent = s.agent;
        agent_there = s.agent_there;
        agent_free = s.agent_free;
        offline = s.offline;
      })

-- Where a job waits, an agent is free, no agent's device has a connection and no database call
-- fails, emptying the queue does not end, whatever the number of rounds: the job whose dispatch
-- fails is queued again with another hour to wait, its agent is given back, and the next round finds
-- such a pair again.
pub dequeue_next-never_ends :
    (fuel : ℕ) (deps : Deps) (w : World) (job : Job) (agent : Agent)
    → w.faults ≡ []
    → Memᴰ job w.jobs
    → is_waiting w.now job ≡ true
    → Memᴰ agent w.agents
    → is_free agent ≡ true
    → All (λ a. get_connection a.device_id w.hub ≡ none) w.agents
    → (dequeue_next fuel deps w).0 ≡ false
dequeue_next-never_ends fuel deps w job agent no_faults there waits at_hand free off =
    subst (λ fs. (dequeue_next fuel deps (record w { faults = fs })).0 ≡ false) (sym no_faults)
      (dequeue_next-calm fuel deps w w.jobs w.agents w.hub w.now w.fresh (record {
        job = job;
        job_there = there;
        job_waits = waits;
        agent = agent;
        agent_there = at_hand;
        agent_free = free;
        offline = off;
      }))

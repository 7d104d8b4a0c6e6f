-- ===== src/Pool/Dequeue.antt =====
-- `dequeueNext` and `expireStale` of gateway/internal/pool/allocator.go.
use one_click_agent.Prelude.{ℕ, zero, suc, Bool, true, false, Option, none, some}
use one_click_agent.Model.{Job, JobStatus, Agent}
use one_click_agent.World.{World, M, Result, ok, err, return, attempt, ignore, ◌>>=◌, ◌>>◌}
use one_click_agent.Store.Jobs
use one_click_agent.Store.Agents
use one_click_agent.Pool.Frames.{Deps, dispatch_job}

unfoldable pub expire_stale : Deps → M (Unit {0})
expire_stale deps = do
  ignore Jobs.expire_queued
  ignore (Jobs.expire_dispatched deps.dispatch_timeout)

-- What the loop does after a round.
pub data Round : Type 0 where
  stop again : Round

-- A dispatch that failed gives the agent back and queues the job once more.
abbrev pub after_dispatch : Job → Agent → Result (Unit {0}) → M Round
after_dispatch job agent (ok _) = return again
after_dispatch job agent (err e) = do
  ignore (Agents.release agent.id)
  ignore (Jobs.clear_agent job.id)
  ignore (Jobs.update_status job.id JobStatus.queued)
  return again

unfoldable pub assign : Deps → Job → Agent → M Round
assign deps job agent = do
  Agents.allocate agent.id job.user_id job.id
  Jobs.set_agent job.id agent.id agent.device_id
  result ← attempt (dispatch_job deps job agent)
  after_dispatch job agent result

abbrev pub with_idle : Deps → Job → Option Agent → M Round
with_idle deps job none = return stop
with_idle deps job (some agent) = assign deps job agent

abbrev pub with_next : Deps → Option Job → M Round
with_next deps none = return stop
with_next deps (some job) = do idle ← Agents.find_idle; with_idle deps job idle

-- The body of the loop; an error in it is logged and ends the loop.
unfoldable pub dequeue_round : Deps → M Round
dequeue_round deps = do next ← Jobs.dequeue_next; with_next deps next

-- Whether the loop goes on from there.
abbrev pub goes_on : Result Round → Bool
goes_on (ok again) = true
goes_on (ok stop) = false
goes_on (err e) = false

-- The loop, on fuel: whether it ended, and the state.
unfoldable pub dequeue_loop : ℕ → Deps → World → Bool × World
dequeue_loop zero deps w = (false, w)
dequeue_loop (suc fuel) deps w =
    let (r, w') = dequeue_round deps w in
    elim (goes_on r) [ true ↦ dequeue_loop fuel deps w' | false ↦ (true, w') ]

unfoldable pub dequeue_next : ℕ → Deps → World → Bool × World
dequeue_next fuel deps w = dequeue_loop fuel deps (expire_stale deps w).1

-- ===== src/Pool/Fleet.antt =====
-- The pool's size, reconciliation with a device, and draining: `EnsurePoolSize`, `ReconcilePool`,
-- `redispatchLostJobs`, `DrainAgent` and `Stats` of gateway/internal/pool/allocator.go. `named` is
-- the name that is made of an identifier's text.
use Prim.Native.String.{String}
use one_click_agent.Prelude.{
  ℕ, zero, suc, ◌+◌, ◌-◌, ◌*◌, Bool, false, ◌&&◌, ◌||◌, not, Option, none, some, List, [], ◌∷◌, ltb,
  leb, ◌==◌, if◌then◌else◌, length, count_where,
}
use one_click_agent.Model.{
  Job, Agent, AgentStatus, AgentCreatePayload, AgentActionPayload, FrameType, Payload, is_idle,
  is_failed, is_creating, is_dispatched, is_terminal, second,
}
use one_click_agent.Tunnel.Hub.{online_count}
use one_click_agent.World.{
  M, Result, ok, err, agent_not_found, agent_has_active_job, return, fail, attempt, ignore,
  new_uuid, ◌>>=◌, ◌>>◌,
}
use one_click_agent.Store.Jobs
use one_click_agent.Store.Agents
use one_click_agent.Store.Agents.{default_limits}
use one_click_agent.Pool.Frames.{Deps, new_frame, send, push, dispatch_job}

abbrev pub new_agent : (ℕ → String) → ℕ → ℕ → ℕ → Agent
new_agent named device i id = record {
  id = id;
  device_id = device;
  user_id = none;
  name = named id;
  description = "";
  image = "iagent/agent:dev";
  port = i + 42000;
  tags = "opencode" ∷ "camoufox" ∷ [];
  status = AgentStatus.creating;
  job_id = none;
  limits = some default_limits;
  allocated_at = none;
  created_at = 0;
  updated_at = 0;
}

abbrev pub create_payload : ℕ → AgentCreatePayload
create_payload id = record {
  agent_id = id;
  image = "iagent/agent:dev";
  tags = "opencode" ∷ "camoufox" ∷ [];
  limits = default_limits;
}

-- The body of the loop: the row comes first, and a frame that is not delivered is not an error.
unfoldable pub grow_one : (ℕ → String) → ℕ → ℕ → M (Unit {0})
grow_one named device i = do
  id ← new_uuid
  Agents.create (new_agent named device i id)
  frame ← new_frame FrameType.agent_create (Payload.create_agent (create_payload id))
  ignore (send device frame)

-- The loop for `i` up to `i + n`.
unfoldable pub grow : (ℕ → String) → ℕ → ℕ → ℕ → M (Unit {0})
grow named device zero i = return tt
grow named device (suc n) i = do grow_one named device i; grow named device n (suc i)

unfoldable pub ensure_pool_size : (ℕ → String) → ℕ → ℕ → M (Unit {0})
ensure_pool_size named device desired = do
  current ← Agents.count_by_device device
  grow named device (desired - current) current

-- Whether the device reported the agent.
abbrev pub reported : List ℕ → ℕ → Bool
reported hello id = ltb 0 (count_where (λ h. h == id) hello)

abbrev promotes : List Agent → ℕ → Bool
promotes agents id = ltb 0 (count_where (λ a. (a.id == id) && is_creating a.status) agents)

unfoldable pub promote : List Agent → List ℕ → M (Unit {0})
promote agents [] = return tt
promote agents (id ∷ hello) = do
  if promotes agents id then ignore (Agents.update_status id AgentStatus.idle) else return tt
  promote agents hello

-- An agent that the device does not report and that is idle, or has been in creation for more than
-- two minutes.
abbrev pub is_stale : List ℕ → ℕ → Agent → Bool
is_stale hello now a =
    not (reported hello a.id)
    && (is_idle a.status || (is_creating a.status && ltb (a.created_at + 120 * second) now))

abbrev pub deletion : Result (Unit {0}) → ℕ
deletion (ok _) = 1
deletion (err e) = 0

abbrev pub sweep_one : List ℕ → ℕ → Agent → M ℕ
sweep_one hello now a =
    if is_stale hello now a
    then (do result ← attempt (Agents.delete a.id); return (deletion result))
    else return 0

-- The number of agents that were deleted.
unfoldable pub sweep : List ℕ → ℕ → List Agent → M ℕ
sweep hello now [] = return 0
sweep hello now (a ∷ agents) = do
  one ← sweep_one hello now a
  rest ← sweep hello now agents
  return (one + rest)

-- The sweep at the clock's instant.
unfoldable pub sweep_now : List ℕ → List Agent → M ℕ
sweep_now hello agents w = sweep hello w.now agents w

abbrev pub is_lost_since : ℕ → Job → Bool
is_lost_since now j =
    is_dispatched j.status
    && elim j.started_at [ none ↦ false | some s ↦ leb (s + 15 * second) now ]

-- After a dispatch that succeeded the credentials are pushed a second time.
abbrev pub pushed_again : Deps → Job → Agent → Result (Unit {0}) → M (Unit {0})
pushed_again deps job agent (ok _) = push deps.push_credentials job.id agent.id agent.device_id
pushed_again deps job agent (err e) = return tt

unfoldable pub redispatch_job : Deps → Agent → Job → M (Unit {0})
redispatch_job deps agent job = do
  result ← attempt (dispatch_job deps job agent)
  pushed_again deps job agent result

unfoldable pub redispatch_jobs : Deps → Agent → ℕ → List Job → M (Unit {0})
redispatch_jobs deps agent now [] = return tt
redispatch_jobs deps agent now (j ∷ jobs) = do
  if is_lost_since now j then redispatch_job deps agent j else return tt
  redispatch_jobs deps agent now jobs

abbrev pub redispatch_found : Deps → Agent → Result (List Job) → M (Unit {0})
redispatch_found deps agent (ok jobs) w = redispatch_jobs deps agent w.now jobs w
redispatch_found deps agent (err e) w = (ok tt, w)

unfoldable pub redispatch_lost_jobs : Deps → List Agent → M (Unit {0})
redispatch_lost_jobs deps [] = return tt
redispatch_lost_jobs deps (a ∷ agents) = do
  found ← attempt (Jobs.list_by_agent a.id)
  redispatch_found deps a found
  redispatch_lost_jobs deps agents

abbrev pub value_or_zero : Result ℕ → ℕ
value_or_zero (ok n) = n
value_or_zero (err e) = 0

-- The end of `ReconcilePool`; what it starts with `go` is `dequeue_next`, run later.
abbrev pub settle : (ℕ → String) → Deps → ℕ → List Agent → ℕ → M (Unit {0})
settle named deps device agents deleted =
    if ltb 0 deleted
    then ensure_pool_size named device (if length agents == 0 then 1 else length agents)
    else (do
      remaining ← attempt (Agents.count_by_device device)
      if value_or_zero remaining == 0 then ignore (ensure_pool_size named device 1) else return tt
      redispatch_lost_jobs deps agents)

unfoldable pub reconcile_pool : (ℕ → String) → Deps → ℕ → List ℕ → M (Unit {0})
reconcile_pool named deps device hello = do
  agents ← Agents.list_by_device device
  promote agents hello
  deleted ← sweep_now hello agents
  settle named deps device agents deleted

unfoldable pub clear_each : List Job → M (Unit {0})
clear_each [] = return tt
clear_each (j ∷ jobs) = do ignore (Jobs.clear_agent j.id); clear_each jobs

-- `nullTerminalJobsForAgent`, of the agent's jobs.
abbrev pub null_jobs : List Job → M (Unit {0})
null_jobs jobs =
    if ltb 0 (count_where (λ j. not (is_terminal j.status)) jobs)
    then fail agent_has_active_job
    else clear_each jobs

unfoldable pub null_terminal_jobs : ℕ → M (Unit {0})
null_terminal_jobs id = do jobs ← Jobs.list_by_agent id; null_jobs jobs

abbrev pub deleted_or : ℕ → Result (Unit {0}) → M (Unit {0})
deleted_or id (ok _) = return tt
deleted_or id (err e) = do null_terminal_jobs id; Agents.delete id

-- An agent at rest is deleted; a busy one is marked.
unfoldable pub remove_agent : Agent → M (Unit {0})
remove_agent a =
    if is_idle a.status || is_failed a.status
    then (do result ← attempt (Agents.delete a.id); deleted_or a.id result)
    else Agents.update_status a.id AgentStatus.failed

abbrev pub drain_payload : ℕ → AgentActionPayload
drain_payload id = record { agent_id = id; action = "drain" }

abbrev pub drain_found : Option Agent → M (Unit {0})
drain_found none = fail agent_not_found
drain_found (some a) = do
  frame ← new_frame FrameType.agent_action (Payload.act_on_agent (drain_payload a.id))
  ignore (send a.device_id frame)
  remove_agent a

unfoldable pub drain_agent : ℕ → M (Unit {0})
drain_agent id = do found ← Agents.get_by_id id; drain_found found

pub record PoolStats : Type 0 where
  pub idle_agents : ℕ
  pub online_devices : ℕ

abbrev pub stats_of : ℕ → M PoolStats
stats_of idle w = (ok (record { idle_agents = idle; online_devices = online_count w.hub }), w)

unfoldable pub stats : M PoolStats
stats = do idle ← Agents.idle_count; stats_of idle

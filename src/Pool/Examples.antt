-- ===== src/Pool/Examples.antt =====
-- Runs of the pool: gateway/internal/pool/allocator.go.
use one_click_agent.Prelude.{lookup, false, refl, [], ◌∷◌, ◌≡◌, ℕ, arith}
use one_click_agent.Model.{Job, JobStatus, UserTier, Agent, AgentStatus}
use Prim.Native.String.{String}
use one_click_agent.Pool.Fleet.{ensure_pool_size}
use one_click_agent.Pool.Clash.{ensure_pool_size-clash}
use one_click_agent.World.{err, db_error, World}
use one_click_agent.Pool.Dequeue.{dequeue_next}
use one_click_agent.Tunnel.Hub.{get_connection}
use one_click_agent.Pool.Livelock.{dequeue_next-never_ends}
use mathlib.Core.List.{Memᴰ}
use one_click_agent.Samples.{empty_hub, job_of, agent_of, world_of, hub_with, plain_deps}

abbrev waiting : Job
waiting = job_of 1 5 UserTier.pro JobStatus.queued

abbrev spare : Agent
spare = agent_of 3 1 AgentStatus.idle

abbrev calm : World
calm = world_of (waiting ∷ []) (spare ∷ []) (hub_with [])

-- The same state without a connection.
abbrev offline : World
offline = world_of (waiting ∷ []) (spare ∷ []) empty_hub

dequeue_next-never_ends_example : (dequeue_next 5 plain_deps offline).0 ≡ false
unfolding get_connection lookup
dequeue_next-never_ends_example =
    dequeue_next-never_ends 5 plain_deps offline waiting spare refl (Memᴰ.head refl) refl
      (Memᴰ.head refl) refl (refl, tt)

-- Of two agents the one with the port 42000 was deleted.
abbrev shrunk : World
shrunk = world_of [] (agent_of 1 1 AgentStatus.idle ∷ []) empty_hub

abbrev plain_name : ℕ → String
plain_name id = "agent"

ensure_pool_size-clash_example :
    ensure_pool_size plain_name 1 2 shrunk ≡ (err db_error, record shrunk { fresh = 501 })
ensure_pool_size-clash_example =
    ensure_pool_size-clash plain_name 1 2 shrunk (agent_of 1 1 AgentStatus.idle) refl
      (Memᴰ.head refl) refl refl (omega arith)

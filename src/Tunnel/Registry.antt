-- ===== src/Tunnel/Registry.antt =====
-- The `Registry` interface of gateway/internal/tunnel/hub.go: what the hub relies on. The methods
-- that return an error return nil in both implementations; `Close` ends the process's use of it.
pub mod InMemory
pub mod Redis
pub mod Staleness
mod Examples
use InMemory
use Redis
use Prim.Native.String.{String}
use one_click_agent.Prelude.{
  ℕ, ◌≡◌, Bool, true, false, Option, some, none, List, if◌then◌else◌, ◌==◌,
}

pub record Registry : Type 1 where
  pub State : Type 0
  pub register : ℕ → String → ℕ → State → State
  pub unregister : ℕ → State → State
  pub get_node : ℕ → State → Option String
  pub is_online : ℕ → State → Bool
  pub touch : ℕ → ℕ → State → State
  pub get_stale : ℕ → State → List ℕ
  -- The laws that the hub's correctness needs: `now` is the clock that a registration may read.
  pub get_node-register :
      (d e now : ℕ) (node : String) (s : State)
      → get_node e (register d node now s) ≡ (if d == e then some node else get_node e s)
  pub get_node-unregister :
      (d e : ℕ) (s : State) → get_node e (unregister d s) ≡ (if d == e then none else get_node e s)
  pub get_node-touch : (d e now : ℕ) (s : State) → get_node e (touch d now s) ≡ get_node e s
  pub is_online-register :
      (d e now : ℕ) (node : String) (s : State)
      → is_online e (register d node now s) ≡ (if d == e then true else is_online e s)
  pub is_online-unregister :
      (d e : ℕ) (s : State)
      → is_online e (unregister d s) ≡ (if d == e then false else is_online e s)

-- Both implementations keep the laws.
abbrev pub in_memory : Registry
in_memory = record {
  State = InMemory.InMemoryRegistry;
  register = InMemory.register;
  unregister = InMemory.unregister;
  get_node = InMemory.get_node;
  is_online = InMemory.is_online;
  touch = InMemory.touch;
  get_stale = InMemory.get_stale;
  get_node-register = InMemory.get_node-register;
  get_node-unregister = InMemory.get_node-unregister;
  get_node-touch = InMemory.get_node-touch;
  is_online-register = InMemory.is_online-register;
  is_online-unregister = InMemory.is_online-unregister;
}

abbrev pub redis : Registry
redis = record {
  State = Redis.RedisRegistry;
  register = Redis.register;
  unregister = Redis.unregister;
  get_node = Redis.get_node;
  is_online = Redis.is_online;
  touch = Redis.touch;
  get_stale = Redis.get_stale;
  get_node-register = Redis.get_node-register;
  get_node-unregister = Redis.get_node-unregister;
  get_node-touch = Redis.get_node-touch;
  is_online-register = Redis.is_online-register;
  is_online-unregister = Redis.is_online-unregister;
}

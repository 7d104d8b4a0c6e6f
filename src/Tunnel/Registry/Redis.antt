-- ===== src/Tunnel/Registry/Redis.antt =====
-- `RedisRegistry` of gateway/internal/tunnel/registry.go: the simulated keys and the heartbeat set.
-- A device's key text determines the device, so both maps are keyed by the device; a score is the
-- whole number of seconds that was written.
use Prim.Native.String.{String}
use one_click_agent.Prelude.{
  ℕ, ◌≡◌, refl, Bool, true, false, ◌&&◌, Option, some, none, List, [], map, if◌then◌else◌, ◌==◌,
  ltb, arith, Dict, lookup, insert, erase, lookup-insert, lookup-erase, length, select, is_some,
}

-- `nodes` holds the keys `iagent:device:{id}:node`, `heartbeats` the set `iagent:devices:heartbeat`.
pub record RedisRegistry : Type 0 where
  pub nodes : Dict String
  pub heartbeats : Dict ℕ

unfoldable pub new_redis_registry : RedisRegistry
new_redis_registry = record { nodes = []; heartbeats = [] }

-- SET the node, ZADD the device with the clock's seconds.
unfoldable pub register : ℕ → String → ℕ → RedisRegistry → RedisRegistry
register d node now r = record {
  nodes = insert d node r.nodes;
  heartbeats = insert d now r.heartbeats;
}

-- DEL the node, ZREM the device.
unfoldable pub unregister : ℕ → RedisRegistry → RedisRegistry
unregister d r = record { nodes = erase d r.nodes; heartbeats = erase d r.heartbeats }

unfoldable pub get_node : ℕ → RedisRegistry → Option String
get_node d r = lookup d r.nodes

unfoldable pub is_online : ℕ → RedisRegistry → Bool
is_online d r = is_some (lookup d r.nodes)

-- ZCARD of the heartbeat set.
unfoldable pub count : RedisRegistry → ℕ
count r = length r.heartbeats

-- ZADD, whether or not the device is registered.
unfoldable pub touch : ℕ → ℕ → RedisRegistry → RedisRegistry
touch d ts r = record r { heartbeats = insert d ts r.heartbeats }

abbrev pub is_stale : ℕ → ℕ × ℕ → Bool
is_stale threshold e = ltb 0 e.1 && ltb e.1 threshold

unfoldable pub get_stale : ℕ → RedisRegistry → List ℕ
get_stale threshold r = map (λ e. e.0) (select (is_stale threshold) r.heartbeats)

pub get_node-register :
    (d e now : ℕ) (node : String) (r : RedisRegistry)
    → get_node e (register d node now r) ≡ (if d == e then some node else get_node e r)
unfolding get_node register
get_node-register d e now node r = lookup-insert d e node r.nodes

pub get_node-unregister :
    (d e : ℕ) (r : RedisRegistry)
    → get_node e (unregister d r) ≡ (if d == e then none else get_node e r)
unfolding get_node unregister
get_node-unregister d e r = lookup-erase d e r.nodes

pub get_node-touch : (d e now : ℕ) (r : RedisRegistry) → get_node e (touch d now r) ≡ get_node e r
unfolding get_node touch
get_node-touch d e now r = refl

pub is_online-register :
    (d e now : ℕ) (node : String) (r : RedisRegistry)
    → is_online e (register d node now r) ≡ (if d == e then true else is_online e r)
unfolding is_online register
is_online-register d e now node r = ground (arith, lookup-insert d e node r.nodes)

pub is_online-unregister :
    (d e : ℕ) (r : RedisRegistry)
    → is_online e (unregister d r) ≡ (if d == e then false else is_online e r)
unfolding is_online unregister
is_online-unregister d e r = ground (arith, lookup-erase d e r.nodes)

-- ===== src/Tunnel/Registry/InMemory.antt =====
-- `InMemoryRegistry` of gateway/internal/tunnel/registry.go. The Go string "" of `GetNode` for a
-- device that is offline is `none`.
use Prim.Native.String.{String}
use one_click_agent.Prelude.{
  ℕ, ◌≡◌, refl, Bool, true, false, ◌&&◌, Option, some, none, List, map, if◌then◌else◌, ◌==◌, ltb,
  arith, Dict, lookup, insert, erase, lookup-insert, lookup-erase, length, select, is_some,
}

pub record DeviceEntry : Type 0 where
  pub node_id : String
  pub last_seen : ℕ

abbrev pub InMemoryRegistry : Type 0
InMemoryRegistry = Dict DeviceEntry

unfoldable pub register : ℕ → String → ℕ → InMemoryRegistry → InMemoryRegistry
register d node now r = insert d (record { node_id = node; last_seen = 0 }) r

unfoldable pub unregister : ℕ → InMemoryRegistry → InMemoryRegistry
unregister d r = erase d r

abbrev node_of : Option DeviceEntry → Option String
node_of none = none
node_of (some e) = some e.node_id

unfoldable pub get_node : ℕ → InMemoryRegistry → Option String
get_node d r = node_of (lookup d r)

unfoldable pub is_online : ℕ → InMemoryRegistry → Bool
is_online d r = is_some (lookup d r)

unfoldable pub count : InMemoryRegistry → ℕ
count r = length r

abbrev touched : ℕ → ℕ → Option DeviceEntry → InMemoryRegistry → InMemoryRegistry
touched d ts none r = r
touched d ts (some e) r = insert d (record e { last_seen = ts }) r

unfoldable pub touch : ℕ → ℕ → InMemoryRegistry → InMemoryRegistry
touch d ts r = touched d ts (lookup d r) r

-- Seen at least once, and before the threshold.
abbrev is_stale : ℕ → ℕ × DeviceEntry → Bool
is_stale threshold e = ltb 0 e.1.last_seen && ltb e.1.last_seen threshold

unfoldable pub get_stale : ℕ → InMemoryRegistry → List ℕ
get_stale threshold r = map (λ e. e.0) (select (is_stale threshold) r)

pub get_node-register :
    (d e now : ℕ) (node : String) (r : InMemoryRegistry)
    → get_node e (register d node now r) ≡ (if d == e then some node else get_node e r)
unfolding get_node register
get_node-register d e now node r =
    ground (arith, lookup-insert d e (record { node_id = node; last_seen = 0 }) r)

pub get_node-unregister :
    (d e : ℕ) (r : InMemoryRegistry)
    → get_node e (unregister d r) ≡ (if d == e then none else get_node e r)
unfolding get_node unregister
get_node-unregister d e r = ground (arith, lookup-erase d e r)

pub get_node-touch :
    (d e now : ℕ) (r : InMemoryRegistry) → get_node e (touch d now r) ≡ get_node e r
unfolding get_node touch
get_node-touch d e now r = go (lookup d r) refl
  where
    go :
        (o : Option DeviceEntry)
        → lookup d r ≡ o
        → node_of (lookup e (touched d now o r)) ≡ node_of (lookup e r)
    go none h = refl
    go (some x) h = ground (arith, lookup-insert d e (record x { last_seen = now }) r)

pub is_online-register :
    (d e now : ℕ) (node : String) (r : InMemoryRegistry)
    → is_online e (register d node now r) ≡ (if d == e then true else is_online e r)
unfolding is_online register
is_online-register d e now node r =
    ground (arith, lookup-insert d e (record { node_id = node; last_seen = 0 }) r)

pub is_online-unregister :
    (d e : ℕ) (r : InMemoryRegistry)
    → is_online e (unregister d r) ≡ (if d == e then false else is_online e r)
unfolding is_online unregister
is_online-unregister d e r = ground (arith, lookup-erase d e r)

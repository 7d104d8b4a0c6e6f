-- ===== src/Tunnel/Registry/Staleness.antt =====
-- Which devices a registry reports as stale when, as in the gateway, nothing calls `Touch`.
use Prim.Native.String.{String}
use one_click_agent.Prelude.{
  ℕ, ◌≡◌, refl, List, [], ◌∷◌, arith, AllValues, insert-AllValues, erase-AllValues, ◌<◌, Dict,
  select, map, insert, true, false, Bool, lt→ltb, Bool-cases, ◌==◌, inl, inr,
}
use one_click_agent.Tunnel.Registry.InMemory
use one_click_agent.Tunnel.Registry.InMemory.{InMemoryRegistry, DeviceEntry}
use one_click_agent.Tunnel.Registry.Redis
use one_click_agent.Tunnel.Registry.Redis.{RedisRegistry}
use mathlib.Core.List.{Memᴰ}

-- What the gateway does to the registry: connections come and go. No call site of `Touch` exists.
pub data Traffic : Type 0 where
  connects : ℕ → String → ℕ → Traffic
  disconnects : ℕ → Traffic

abbrev pub run_in_memory : List Traffic → InMemoryRegistry → InMemoryRegistry
run_in_memory [] r = r
run_in_memory (connects d node now ∷ es) r = run_in_memory es (InMemory.register d node now r)
run_in_memory (disconnects d ∷ es) r = run_in_memory es (InMemory.unregister d r)

abbrev Unseen : ℕ → DeviceEntry → Type 0
Unseen d e = e.last_seen ≡ 0

run_in_memory-Unseen :
    (es : List Traffic) (r : InMemoryRegistry)
    → AllValues Unseen r
    → AllValues Unseen (run_in_memory es r)
unfolding InMemory.register InMemory.unregister
run_in_memory-Unseen [] r h = h
run_in_memory-Unseen (connects d node now ∷ es) r h =
    run_in_memory-Unseen es _ (insert-AllValues Unseen d _ r refl h)
run_in_memory-Unseen (disconnects d ∷ es) r h =
    run_in_memory-Unseen es _ (erase-AllValues Unseen d r h)

get_stale-Unseen :
    (threshold : ℕ) (r : InMemoryRegistry)
    → AllValues Unseen r
    → InMemory.get_stale threshold r ≡ []
unfolding InMemory.get_stale
get_stale-Unseen threshold [] h = refl
get_stale-Unseen threshold ((d, e) ∷ r) h = ground (arith, get_stale-Unseen threshold r h.1)

-- After any traffic of connections and disconnections from an empty in-memory registry, and for
-- every threshold, no device is stale: the liveness checker has nothing to close.
pub in_memory-never_stale :
    (threshold : ℕ) (es : List Traffic) → InMemory.get_stale threshold (run_in_memory es []) ≡ []
in_memory-never_stale threshold es = get_stale-Unseen threshold _ (run_in_memory-Unseen es [] tt)

stale_later :
    (d e ts threshold : ℕ) (m : Dict ℕ) (b : Bool)
    → Redis.is_stale threshold (e, ts) ≡ b
    → Memᴰ d (map (λ e. e.0) (select (Redis.is_stale threshold) m))
    → Memᴰ d (map (λ e. e.0) (select (Redis.is_stale threshold) ((e, ts) ∷ m)))
stale_later d e ts threshold m true h there = rw h (Memᴰ.tail there)
stale_later d e ts threshold m false h there = rw h there

stale_entry :
    (d now threshold : ℕ) (m : Dict ℕ)
    → 0 < now
    → now < threshold
    → Memᴰ d (map (λ e. e.0) (select (Redis.is_stale threshold) (insert d now m)))
unfolding insert
stale_entry d now threshold [] pos old =
    rw (lt→ltb 0 now pos, lt→ltb now threshold old) (Memᴰ.head refl)
stale_entry d now threshold ((e, ts) ∷ m) pos old = elim (Bool-cases (e == d)) [
  | inl same ↦ rw (same, lt→ltb 0 now pos, lt→ltb now threshold old) (Memᴰ.head refl)
  | inr other ↦ rw other (
      stale_later d e ts threshold (insert d now m) (Redis.is_stale threshold (e, ts)) refl
        (stale_entry d now threshold m pos old))
]

-- In the Redis registry a device that registered at a clock reading `now` other than 0 is stale for
-- every later threshold, whatever it sent since: its score moves by `Touch` alone.
pub redis-stale_after_register :
    (d now threshold : ℕ) (node : String) (r : RedisRegistry)
    → 0 < now
    → now < threshold
    → Memᴰ d (Redis.get_stale threshold (Redis.register d node now r))
unfolding Redis.get_stale Redis.register
redis-stale_after_register d now threshold node r pos old =
    stale_entry d now threshold r.heartbeats pos old

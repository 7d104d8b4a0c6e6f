-- ===== src/Tunnel/Registry/Examples.antt =====
-- Runs of the registries: gateway/internal/tunnel/registry.go.
use one_click_agent.Prelude.{◌≡◌, [], ◌∷◌}
use one_click_agent.Tunnel.Registry.InMemory
use one_click_agent.Tunnel.Registry.Staleness.{
  connects, disconnects, run_in_memory, in_memory-never_stale,
}

in_memory-never_stale_example :
    InMemory.get_stale 999
      (run_in_memory (connects 1 "a" 5 ∷ connects 2 "a" 6 ∷ disconnects 1 ∷ []) [])
    ≡ []
in_memory-never_stale_example =
    in_memory-never_stale 999 (connects 1 "a" 5 ∷ connects 2 "a" 6 ∷ disconnects 1 ∷ [])

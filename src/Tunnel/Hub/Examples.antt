-- ===== src/Tunnel/Hub/Examples.antt =====
-- Runs of the hub: gateway/internal/tunnel/hub.go.
use one_click_agent.Prelude.{
  ℕ, ◌≡◌, refl, true, false, some, none, [], ◌∷◌, arith, lookup, if◌then◌else◌, ◌==◌,
}
use one_click_agent.Tunnel.Conn.{DeviceConn}
use one_click_agent.Tunnel.Registry.{in_memory}
use one_click_agent.Tunnel.Registry.InMemory
use one_click_agent.Tunnel.Hub.{Hub, close_device, register, get_connection, unregister}
use one_click_agent.Tunnel.Hub.Locking.{close_device-blocks}
use one_click_agent.Tunnel.Hub.Takeover.{TakesOver}
use one_click_agent.Tunnel.Hub.Routing.{register-supersedes, unregister_late}
use one_click_agent.Samples.{hub_with, conn_of, sent_at}

abbrev hub : Hub in_memory
hub = hub_with []

close_device-blocks_example : close_device 1 4001 hub ≡ none
unfolding lookup
close_device-blocks_example =
    close_device-blocks in_memory 1 4001 10 (conn_of 1 []) hub refl refl refl refl

-- The connection at the pointer 10 waits for the ACK of the frame 4.
abbrev waiting : DeviceConn
waiting = record (conn_of 1 []) { acks = (4, sent_at 0 4) ∷ [] }

abbrev hub_waiting : Hub in_memory
hub_waiting = record hub { conns = (10, waiting) ∷ (11, conn_of 1 []) ∷ [] }

register-supersedes_example :
    (h' : Hub in_memory) × (register 5 11 hub_waiting ≡ some h')
    × ((e : ℕ) → get_connection e h' ≡ (if 1 == e then some 11 else get_connection e hub_waiting))
    × ((e : ℕ)
        → InMemory.get_node e h'.registry
          ≡ (if 1 == e then some "node-a" else InMemory.get_node e hub_waiting.registry))
    × (lookup 10 h'.conns ≡ some (record waiting { closed = true; close_code = some 4002 }))
    × ((c' : DeviceConn) × (lookup 11 h'.conns ≡ some c') × TakesOver waiting (conn_of 1 []) c')
    × (h'.disconnects ≡ 1 ∷ [])
unfolding lookup
register-supersedes_example =
    register-supersedes in_memory 5 11 10 (conn_of 1 []) waiting hub_waiting refl refl refl
      (omega arith) refl refl refl

unregister_late_example :
    (h' : Hub in_memory) × (unregister false 1 12 hub ≡ some h')
    × (get_connection 1 h' ≡ some 10)
    × (InMemory.is_online 1 h'.registry ≡ false)
    × (h'.disconnects ≡ 1 ∷ [])
unfolding get_connection lookup
unregister_late_example = unregister_late in_memory 1 10 12 hub refl (omega arith)

-- ===== src/Tunnel/Acks/Examples.antt =====
-- Runs of the ack tracker: gateway/internal/tunnel/device_conn.go.
use one_click_agent.Prelude.{◌*◌, ◌≡◌, refl, List, [], ◌∷◌, arith}
use one_click_agent.Model.{second}
use one_click_agent.Tunnel.Acks.{AckTracker, retransmit_tick}
use one_click_agent.Tunnel.Acks.Backoff.{AckEvent, sends, acked, ticks}
use one_click_agent.Tunnel.Acks.Drain.{four_ticks-empty}
use one_click_agent.Samples.{ping, sent_at}

abbrev history : List AckEvent
history =
    sends 5 (ping 8) ∷ sends 6 (ping 9) ∷ ticks (2 * second) ∷ acked 9 ∷ ticks (5 * second) ∷ []

abbrev one_pending : AckTracker
one_pending = (8, sent_at 5 8) ∷ []

four_ticks-empty_example :
    (retransmit_tick
      (20 * second)
      (retransmit_tick
        (15 * second)
        (retransmit_tick (10 * second) (retransmit_tick (5 * second) one_pending).0).0).0).0
    ≡ []
four_ticks-empty_example =
    four_ticks-empty 5 (5 * second) (10 * second) (15 * second) (20 * second) one_pending
      (record { keyed = refl; capped = omega arith }, tt) (omega arith, tt) (omega arith)
      (omega arith) (omega arith) (omega arith)

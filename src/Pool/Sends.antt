-- ===== src/Pool/Sends.antt =====
-- A frame whose sending is not heeded, as in `_ = hub.SendFrame(…)`.
use one_click_agent.Prelude.{◌≡◌, refl, Option, none, some}
use one_click_agent.World.{World, ok, next, settled, return}
use one_click_agent.Tunnel.Registry.{in_memory}
use one_click_agent.Tunnel.Hub.{Hub, SendError}
use one_click_agent.Pool.Frames.{sent}

-- It changes the hub at most, and is no error.
pub sent_quietly :
    (r : Option SendError × Hub in_memory) (w : World)
    → (hub : Hub in_memory) × (next (settled (sent r w)) (λ _. return tt)
        ≡ (ok tt, record w { hub = hub }))
sent_quietly (none, hub) w = (hub, refl)
sent_quietly (some e, hub) w = (hub, refl)

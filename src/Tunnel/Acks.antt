-- ===== src/Tunnel/Acks.antt =====
-- The ack tracker of a device connection: `AckTracker` in gateway/internal/tunnel/device_conn.go.
-- The map from message ids to tracked frames is a dictionary; a sweep visits each entry once.
pub mod Backoff
pub mod Drain
mod Examples
use one_click_agent.Prelude.{
  ℕ, zero, suc, ◌+◌, ◌*◌, ◌^◌, List, [], ◌∷◌, map, Dict, insert, erase, leb, if◌then◌else◌,
}
use one_click_agent.Model.{Frame, ack_retransmit_base, ack_retransmit_max_retries}

pub record TrackedFrame : Type 0 where
  pub msg_id : ℕ
  pub frame : Frame
  pub sent_at : ℕ
  pub retries : ℕ

abbrev pub AckTracker : Type 0
AckTracker = Dict TrackedFrame

unfoldable pub new_ack_tracker : AckTracker
new_ack_tracker = []

-- The entry that `Track` writes at the instant `now`.
abbrev pub tracked : ℕ → Frame → TrackedFrame
tracked now frame = record { msg_id = frame.msg_id; frame = frame; sent_at = now; retries = 0 }

unfoldable pub track : ℕ → Frame → AckTracker → AckTracker
track now frame t = insert frame.msg_id (tracked now frame) t

unfoldable pub remove : ℕ → AckTracker → AckTracker
remove msg_id t = erase msg_id t

unfoldable pub pending : AckTracker → List TrackedFrame
pending [] = []
pending ((k, f) ∷ t) = f ∷ pending t

-- What one sweep does: the entries afterwards, the frames to send again, and those given up.
pub record Sweep : Type 0 where
  pub frames : AckTracker
  pub retry : List TrackedFrame
  pub failed : List TrackedFrame

-- `AckRetransmitBase * (1 << f.Retries)`: 1 s, 2 s, 4 s.
abbrev pub backoff : TrackedFrame → ℕ
backoff f = ack_retransmit_base * 2 ^ f.retries

-- The frame when it is sent again.
abbrev pub retried : ℕ → TrackedFrame → TrackedFrame
retried now f = record f { retries = suc f.retries; sent_at = now }

-- The body of the loop, for one entry. `now.Sub(f.SentAt) >= backoff` is read as a sum.
unfoldable pub sweep_entry : ℕ → ℕ → TrackedFrame → Sweep → Sweep
sweep_entry now k f rest =
    if leb ack_retransmit_max_retries f.retries
    then record rest { frames = (k, f) ∷ rest.frames; failed = f ∷ rest.failed }
    else if leb (f.sent_at + backoff f) now
    then record rest {
      frames = (k, retried now f) ∷ rest.frames;
      retry = retried now f ∷ rest.retry;
    }
    else record rest { frames = (k, f) ∷ rest.frames }

unfoldable pub retransmit_ready : ℕ → AckTracker → Sweep
retransmit_ready now [] = record { frames = []; retry = []; failed = [] }
retransmit_ready now ((k, f) ∷ t) = sweep_entry now k f (retransmit_ready now t)

unfoldable pub remove_failed : List ℕ → AckTracker → AckTracker
remove_failed [] t = t
remove_failed (id ∷ ids) t = remove_failed ids (erase id t)

-- One tick of `StartRetransmitter`: the tracker afterwards and the frames queued for sending.
unfoldable pub retransmit_tick : ℕ → AckTracker → AckTracker × List TrackedFrame
retransmit_tick now t =
    let s = retransmit_ready now t in
    (remove_failed (map (λ f. f.msg_id) s.failed) s.frames, s.retry)

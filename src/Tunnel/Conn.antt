-- ===== src/Tunnel/Conn.antt =====
-- The state of a device connection: `DeviceConn` in gateway/internal/tunnel/device_conn.go. The
-- socket is not modelled but for the close code sent on it; `hub` is the hub pointer's nil test.
use one_click_agent.Prelude.{
  ℕ, Bool, true, false, Option, none, List, [], ◌∷◌, ◌++◌, Dict, length, ltb, if◌then◌else◌, some,
}
use one_click_agent.Model.{Frame, FrameType}
use one_click_agent.Tunnel.Acks.{
  AckTracker, new_ack_tracker, retransmit_tick, TrackedFrame, track, pending,
}

pub record DeviceConn : Type 0 where
  pub device_id : ℕ
  pub hub : Bool
  pub outbound : List Frame
  pub acks : AckTracker
  pub last_seen : ℕ
  pub closed : Bool
  pub close_code : Option ℕ
  pub hello_received : Bool
  pub processed : Dict ℕ
  pub frame_count : ℕ
  pub frame_last_ts : ℕ

-- The capacity of the `outbound` channel.
abbrev pub outbound_cap : ℕ
outbound_cap = 256

unfoldable pub new_device_conn : ℕ → ℕ → DeviceConn
unfolding new_ack_tracker
new_device_conn device_id now = record {
  device_id = device_id;
  hub = false;
  outbound = [];
  acks = new_ack_tracker;
  last_seen = now;
  closed = false;
  close_code = none;
  hello_received = false;
  processed = [];
  frame_count = 0;
  frame_last_ts = now;
}

-- `select { case c.outbound <- frame: … default: … }`: whether the frame was taken.
unfoldable pub offer : Frame → DeviceConn → Bool × DeviceConn
offer frame c =
    if ltb (length c.outbound) outbound_cap
    then (true, record c { outbound = c.outbound ++ frame ∷ [] })
    else (false, c)

-- The loop over the frames to send again; a frame that finds the queue full is dropped this time.
unfoldable pub offer_all : List TrackedFrame → DeviceConn → DeviceConn
offer_all [] c = c
offer_all (f ∷ fs) c = offer_all fs (offer f.frame c).1

-- A tick of `StartRetransmitter`.
unfoldable pub retransmit : ℕ → DeviceConn → DeviceConn
retransmit now c =
    let (acks, retry) = retransmit_tick now c.acks in record (offer_all retry c) { acks = acks }

-- The loop that moves the unacknowledged frames of the old connection to the new one.
unfoldable pub migrate : ℕ → List TrackedFrame → DeviceConn → DeviceConn
migrate now [] c = c
migrate now (f ∷ fs) c =
    migrate now fs (offer f.frame (record c { acks = track now f.frame c.acks })).1

abbrev pub pending_of : Option DeviceConn → List TrackedFrame
pending_of none = []
pending_of (some c) = pending c.acks

abbrev pub is_ack : FrameType → Bool
is_ack FrameType.ack = true
is_ack _ = false

-- A frame that is no ACK is tracked, whether or not the queue takes it.
abbrev pub tracked_send : ℕ → Frame → DeviceConn → DeviceConn
tracked_send now frame c =
    if is_ack frame.type then c else record c { acks = track now frame c.acks }

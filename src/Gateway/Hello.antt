-- ===== src/Gateway/Hello.antt =====
-- The reading loop's body and the handshake: `StartReadPump` and `handleHello` of
-- gateway/internal/tunnel/device_conn.go, from a message that was unmarshalled on, for a connection
-- of a hub. A message is its size and the frame, if it is one. Closing the connection is the answer
-- `close_with`, which ends the loop; the limit on frames per second is disabled in the source.
-- `StartDedupPruner` of that file is here too.
use one_click_agent.Prelude.{
  ◌/◌, ℕ, ◌+◌, ◌*◌, true, ◌&&◌, not, Option, none, some, lookup, ltb, ◌==◌, if◌then◌else◌, select,
}
use one_click_agent.Model.{
  Frame, FrameType, Payload, HelloPayload, HelloAckPayload, frame_version, frame_max_size, second,
}
use one_click_agent.Tunnel.Conn.{DeviceConn, offer}
use one_click_agent.World.{M, return, ignore, new_uuid, ◌>>=◌, ◌>>◌}
use one_click_agent.Pool.Frames.{millis}
use one_click_agent.Gateway.Handlers.{Gateway, on_hello}
use one_click_agent.Gateway.Inbound.{Decoder, Handled, handle_frame, is_hello, on_conn, touch}

abbrev pub hello_ack_payload : ℕ → ℕ → HelloAckPayload
hello_ack_payload session now = record {
  server_time = millis now;
  session_id = session;
  heartbeat_s = 15;
  max_frame_bytes = frame_max_size;
}

abbrev pub hello_ack : ℕ → ℕ → ℕ → Frame
hello_ack id session now = record {
  version = frame_version;
  type = FrameType.hello_ack;
  msg_id = id;
  ack_id = none;
  ts = millis now;
  payload = Payload.hello_reply (hello_ack_payload session now);
}

-- The answer is dropped where the queue is full, and it is not tracked.
abbrev pub answer_hello : ℕ → ℕ → ℕ → M (Unit {0})
answer_hello p id session w = on_conn p (λ c. (offer (hello_ack id session w.now) c).1) w

abbrev pub greet : Gateway → ℕ → ℕ → Option HelloPayload → M (Unit {0})
greet g p device none = return tt
greet g p device (some payload) = do
  on_conn p (λ c. record c { hello_received = true })
  ignore (on_hello g device payload)
  id ← new_uuid
  session ← new_uuid
  answer_hello p id session

unfoldable pub handle_hello : Gateway → Decoder → ℕ → ℕ → Frame → M (Unit {0})
handle_hello g d p device f = greet g p device (d.hello f.payload)

-- The loop goes on after the frame was handled, or the connection is closed with the code.
pub data Outcome : Type 0 where
  goes_on : Handled → Outcome
  close_with : ℕ → Outcome

abbrev pub on_outcome : Handled → M Outcome
on_outcome h = return (goes_on h)

-- The first HELLO of a connection is handled before the rest.
abbrev pub first_hello : Gateway → Decoder → ℕ → Frame → Option DeviceConn → M (Unit {0})
first_hello g d p f none = return tt
first_hello g d p f (some c) =
    if is_hello f.type && not c.hello_received
    then (do on_conn p (λ k. record k { hello_received = true }); handle_hello g d p c.device_id f)
    else return tt

abbrev pub hello_first : Gateway → Decoder → ℕ → Frame → M (Unit {0})
hello_first g d p f w = first_hello g d p f (lookup p w.hub.conns) w

abbrev pub receive_frame : Gateway → Decoder → ℕ → Frame → M Outcome
receive_frame g d p f =
    if f.version == frame_version
    then (do hello_first g d p f; h ← handle_frame g d p f; on_outcome h)
    else return (close_with 4004)

abbrev pub receive_decoded : Gateway → Decoder → ℕ → Option Frame → M Outcome
receive_decoded g d p none = return (close_with 4004)
receive_decoded g d p (some f) = receive_frame g d p f

unfoldable pub receive_message : Gateway → Decoder → ℕ → ℕ → Option Frame → M Outcome
receive_message g d p size f = do
  touch p
  if ltb frame_max_size size then return (close_with 4004) else receive_decoded g d p f

-- A tick of `StartDedupPruner`: ids that are older than five minutes are forgotten. The source
-- compares seconds.
abbrev pub max_age : ℕ
max_age = 5 * 60

abbrev pub seconds : ℕ → ℕ
seconds t = t / second

unfoldable pub prune_processed : ℕ → DeviceConn → DeviceConn
prune_processed now c = record c {
  processed = select (λ e. not (ltb (seconds e.1 + max_age) (seconds now))) c.processed;
}

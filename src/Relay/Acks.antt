-- ===== src/Relay/Acks.antt =====
-- `sendPullAck` of gateway/internal/relay/relay.go, and the errors that go with one.
use Prim.Native.String.{String}
use one_click_agent.Prelude.{ℕ, Option, none}
use one_click_agent.Model.{PullStatus, FilePullAckPayload, FrameType, Payload}
use one_click_agent.World.{M, Error, fail, ignore, ◌>>=◌, ◌>>◌}
use one_click_agent.Pool.Frames.{new_frame, send}

abbrev pub ack_payload : ℕ → PullStatus → String → Option ℕ → FilePullAckPayload
ack_payload file status error index = record {
  file_id = file;
  status = status;
  error = error;
  chunk_index = index;
}

unfoldable pub send_pull_ack : ℕ → ℕ → PullStatus → String → Option ℕ → M (Unit {0})
send_pull_ack device file status error index = ignore (do
  frame ← new_frame FrameType.file_pull_ack (Payload.pull_ack (ack_payload file status error index))
  send device frame)

-- An error is told to the device and returned.
abbrev pub refuse : {A : Type 0} → ℕ → ℕ → String → Error → M A
refuse device file text e = do send_pull_ack device file PullStatus.error text none; fail e

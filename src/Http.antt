-- ===== src/Http.antt =====
-- The HTTP API: the handlers of gateway/internal/httpapi, from a decoded request to the answer.
pub mod Answers
pub mod Jobs
pub mod Submit
pub mod Vnc
pub mod VncOpening
pub mod Outputs
pub mod Cancelled
pub mod Access
pub mod Assigned
pub mod QueueFull
pub mod Idempotency
pub mod Replay
mod Examples
mod Repeats

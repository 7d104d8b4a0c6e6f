-- ===== src/Pool.antt =====
-- The agent pool: `Allocator` in gateway/internal/pool/allocator.go. Logging is left out. What the
-- allocator starts with `go` is a computation of its own that the environment runs later.
pub mod Frames
pub mod Sends
pub mod Allocate
pub mod Dequeue
pub mod Fleet
pub mod Clash
pub mod Assigned
pub mod FleetAssigned
pub mod Livelock
mod Examples

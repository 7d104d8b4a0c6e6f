-- ===== src/Relay.antt =====
-- The file relay: gateway/internal/relay/relay.go.
pub mod Names
pub mod Disk
pub mod Staging
pub mod Push
pub mod Chunks
pub mod Reassembly
pub mod Transfer
pub mod Saved
pub mod RoundTrip
pub mod Unlinked
pub mod Containment
pub mod Untouched
pub mod Assigned
pub mod Acks
pub mod Outputs
pub mod Pull
mod Examples

-- ===== src/Gateway.antt =====
-- The gateway's wiring: the handlers of device frames in gateway/cmd/gateway/main.go, and what the
-- parts do together.
pub mod Handlers
pub mod LateResult
pub mod Assigned
pub mod Operations
pub mod Inbound
pub mod Hello
pub mod Foreign
pub mod LostResult
mod Examples

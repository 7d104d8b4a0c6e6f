-- ===== src/Auth.antt =====
-- Accounts and sessions: gateway/internal/auth and gateway/internal/httpapi/auth_handler.go.
pub mod Passwords
pub mod Jwt
pub mod Roles
pub mod Handlers
pub mod Live
pub mod Rotation
pub mod Runs
pub mod Theft
pub mod Overlap
pub mod Strength
pub mod Keys
mod Examples

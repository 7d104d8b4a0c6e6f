-- ===== src/Skills.antt =====
-- The skill vault and the dispatch of skills to devices: gateway/internal/skillvault.
pub mod Vault
pub mod Dispatch
pub mod State
pub mod Republish
pub mod Offline
pub mod Announced
pub mod Visibility
pub mod Seen
mod Examples

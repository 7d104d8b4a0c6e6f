-- ===== src/Store.antt =====
-- The database stores of gateway/internal/store: each method is its SQL statement over the rows of
-- a table. A comparison with NULL holds for no row.
pub mod Rows
pub mod Pages
pub mod Listed
pub mod Members
pub mod Jobs
pub mod Agents
pub mod Devices
pub mod Files
pub mod VncSessions
pub mod Users
pub mod Tokens
pub mod Skills
pub mod Grants

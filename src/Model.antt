-- ===== src/Model.antt =====
-- Domain types: gateway/internal/model/types.go. Identifiers (UUIDs, message ids) are compared for
-- equality only and are numbers; instants and durations are numbers of nanoseconds.
mod Users
mod Jobs
mod Agents
mod Devices
mod Files
mod Events
mod Inbound
mod Skills
mod Vnc
mod Frames
pub use Users.*
pub use Jobs.*
pub use Agents.*
pub use Devices.*
pub use Files.*
pub use Events.*
pub use Inbound.*
pub use Skills.*
pub use Vnc.*
pub use Frames.*

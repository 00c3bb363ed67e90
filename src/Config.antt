-- ===== src/Config.antt =====
-- internal/config: the configuration of the server and what is accepted as one.
pub mod Server
pub mod Client
pub mod Rules
pub mod Validate
pub mod Overlays
pub mod Resolve

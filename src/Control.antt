-- ===== src/Control.antt =====
-- internal/control: the bookkeeping of the server's control plane.
pub mod HalfOpen
pub mod DataQuota
pub mod Ports
pub mod VhostListener
pub mod Server
pub mod Tunnels
pub mod PublicConns
pub mod DataConns
pub mod Connection
pub mod Run

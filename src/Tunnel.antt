-- ===== src/Tunnel.antt =====
-- internal/tunnel: registration, pairing and routing of tunnels.
pub mod Manager
pub mod Vhost
pub mod Host
pub mod Sniff
pub mod Acl
pub mod UdpFrame
pub mod UdpSessions

-- ===== src/Examples.antt =====
-- Concrete runs: each shows that the hypotheses of a theorem can hold.
mod Tunnels
mod Udp
mod Messages
mod Tokens
mod Enrollment
mod Logging
mod Connections
mod Control
mod Configuration

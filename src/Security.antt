-- ===== src/Security.antt =====
-- internal/security: the quotas and rate limits that the server enforces.
pub mod Quota
pub mod IpGate
pub mod Bandwidth

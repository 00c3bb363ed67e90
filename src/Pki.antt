-- ===== src/Pki.antt =====
-- internal/pki: the identities of clients.
pub mod Sign
pub mod Registry
pub mod Revocation

-- ===== src/Auth.antt =====
-- internal/auth: enrollment tokens.
pub mod TokenStore

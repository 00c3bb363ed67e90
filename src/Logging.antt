-- ===== src/Logging.antt =====
-- internal/logging: the guard against floods of one message.
pub mod Redact
pub mod Sample

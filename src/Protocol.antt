-- ===== src/Protocol.antt =====
-- internal/protocol: the control protocol, its messages, their validation and their framing.
pub mod Ranges
pub mod Messages
pub mod Validate
pub mod Frame

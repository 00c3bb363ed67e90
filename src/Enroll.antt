-- ===== src/Enroll.antt =====
-- internal/enroll: the limiter of the enrollment endpoint and its handlers.
pub mod RateLimit
pub mod Server

-- ===== src/RateLimit.antt =====
-- pkg/middleware/ratelimit.go: the fixed-window limiter and its policies.
pub mod Modes
pub mod Limiter
pub mod Enforce
pub mod Window
pub mod Admission
pub mod Answers
pub mod Policies
mod Tests

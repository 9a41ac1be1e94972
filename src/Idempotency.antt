-- ===== src/Idempotency.antt =====
-- pkg/repository/idempotency.go and pkg/service/idempotency.go: request-level idempotency.
pub mod Table
pub mod Service
pub mod Rows
pub mod Calls
pub mod Replay
pub mod Recording
pub mod Retries
pub mod Locking
pub mod Failures
mod Tests

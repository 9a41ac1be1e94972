-- ===== src/Outbox.antt =====
-- pkg/repository/notification_outbox.go and pkg/service/notification.go: the delivery queue of
-- notifications.
pub mod Table
pub mod Delivery
pub mod Actions
pub mod Lookup
pub mod Distinct
pub mod System
pub mod Custody
pub mod Steps
pub mod Batches
pub mod Refinement
pub mod Backoff
pub mod Abandoned
pub mod Redaction
pub mod Redacts
pub mod Secrets
pub mod Sanitize
pub mod Sanitized
mod Tests

-- ===== src/Quota.antt =====
-- pkg/service/notification.go: the quota thresholds.
pub mod Thresholds
pub mod Levels
mod Tests

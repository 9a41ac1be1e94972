-- ===== src/Hub.antt =====
-- pkg/ws/hub.go: the WebSocket hub.
pub mod State
pub mod Sends
pub mod Ownership
pub mod Pushes
pub mod Counts
pub mod System
pub mod Reservations
pub mod Governance
mod Tests

-- ===== src/TwoFactor.antt =====
-- pkg/service/two_factor.go and pkg/repository/two_factor.go: the second factor of a login.
pub mod Rows
pub mod Codes
pub mod Service
pub mod Guesses
pub mod Bound
pub mod Backup
pub mod Printed
mod Tests

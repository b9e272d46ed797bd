-- ===== src/Backend.antt =====
-- The parts of the Go backend, under internal/, whose answers the page relies on.
pub mod History
pub mod Logs
pub mod Hub
pub mod Charts
pub mod Tokens
pub mod Cpu
pub mod Auth
mod Tests

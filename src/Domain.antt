-- ===== src/Domain.antt =====
-- The daemon's shared state and its operations: swbt/domain/.
pub mod Lease
pub mod Status
pub mod App
pub mod Records
pub mod Calls
mod Examples

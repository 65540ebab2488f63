-- ===== src/Daemon.antt =====
-- The daemon around the runtime: swbt/daemon/.
pub mod SwitchAddress
pub mod Config
pub mod Options
pub mod Launch
pub mod IpcRunner
mod Examples

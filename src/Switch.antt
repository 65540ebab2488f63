-- ===== src/Switch.antt =====
-- The controller side of the protocol: swbt/switch/.
pub mod State
pub mod Report
pub mod Subcommand
pub mod Reply
pub mod Spi
pub mod SpiSeed
pub mod PlayerLights
pub mod Rumble
pub mod DeviceInfo
pub mod Dispatcher
mod Examples

-- ===== src/Bridge.antt =====
-- The bridge to the Bluetooth stack: the parts of swbt/btstack_bridge/ that hold state of their own.
pub mod ReplyQueue
pub mod Scheduler
pub mod Timer
pub mod HidEvent
pub mod OutputHandler
pub mod AdapterLocation
pub mod Device
mod Examples

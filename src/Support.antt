-- ===== src/Support.antt =====
-- Counters shared by the components: swbt/support/.
pub mod Metrics
mod Examples

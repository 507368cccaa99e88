-- ===== src/Safety.antt =====
-- cli_tool/safety: the guards in front of every workflow that changes a device.
pub mod IpAddress
pub mod Policy
mod Tests

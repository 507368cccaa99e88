-- ===== src/Tools/ReadonlySmoke.antt =====
-- tools/cli_tool_readonly_smoke.py: one command of a catalog on one device.
pub mod Settings
pub mod Sources
pub mod Target
pub mod Config
pub mod Command
pub mod Run
pub mod Bounds
pub mod Credentials
pub mod Checked
pub mod Guarded

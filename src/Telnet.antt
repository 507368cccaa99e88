-- ===== src/Telnet.antt =====
-- cli_tool/transport/telnet.py.
pub mod Protocol
pub mod Readiness
pub mod Patterns
pub mod Options
pub mod Reader
pub mod Session
mod Tests
mod SessionTests

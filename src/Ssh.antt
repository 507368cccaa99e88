-- ===== src/Ssh.antt =====
-- cli_tool/transport/ssh.py: sessions, and the tokens that limit those of a device.
pub mod Tokens
pub mod Pool
pub mod Connect
pub mod Session
pub mod SessionTests
pub mod Tests

-- ===== src/Parsers.antt =====
-- cli_tool/parsers: what is read from the output of devices.
pub mod LineCardStatus
pub mod Tests

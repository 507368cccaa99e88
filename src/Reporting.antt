-- ===== src/Reporting.antt =====
-- cli_tool/reporting: the redaction of reports.
pub mod Patterns
pub mod Redaction
pub mod Tests

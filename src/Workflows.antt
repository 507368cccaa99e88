-- ===== src/Workflows.antt =====
-- cli_tool/workflows: what the tools run on top of the transports.
pub mod XponRemediation
pub mod NetconfEdit
pub mod Verify
pub mod LineCardPreflight
pub mod Tests

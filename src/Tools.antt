-- ===== src/Tools.antt =====
-- tools: the command-line tools.
pub mod NetconfTest
pub mod ReadonlyTransfer
pub mod ReadonlySmoke
pub mod Tests
mod TransferTests
mod SmokeTests

-- ===== src/Transfer/Ftp.antt =====
-- cli_tool/transfer/ftp.py: `FtpReadOnlyClient`.
pub mod Options
pub mod Server
pub mod Calendar
pub mod Facts
pub mod UnixList
pub mod Session
pub mod Listing
pub mod Stat
pub mod Download
pub mod LocalFiles
pub mod Unprotected
pub mod Script
pub mod Tests

-- ===== src/Transfer.antt =====
-- cli_tool/transfer: the read-only file transfer.
pub mod Models
pub mod Paths
pub mod Local
pub mod Sftp
pub mod Ftp
pub mod Tests

-- ===== src/Transfer/Sftp.antt =====
-- cli_tool/transfer/sftp.py. The server behind paramiko is the record `Remote` of
-- Transfer.Sftp.Remote.
pub mod Remote
pub mod Options
pub mod Client
pub mod Download

-- ===== src/Lib.antt =====
-- Device CLI Tool: a library and tools that read from network devices, and in few, guarded cases
-- write to them.
--
-- The parts and their files. A path is one of the repository, a name after it one of that file.
--   cli_tool/transport/netconf.py, `NetconfClient`: Netconf. Netconf/Model holds the values
--     (capabilities, the confirm timeout, the arguments of a commit), Netconf/Session what a session
--     can do, Netconf/Client the methods that open and close a session and send one request, with the
--     pinning of the host key, Netconf/Transaction the confirmed-commit transaction
--     `execute_confirmed_commit`. A world has the state of the server and the log of what was
--     exchanged with it; the theorems are about the log.
--   cli_tool/transport/telnet.py and readiness.py: Telnet. Protocol has `consume_telnet_bytes`,
--     Readiness the end of an output and its envelope, Patterns the prompts, Reader
--     `_read_until_ready`, Session the methods that use it and the transport.
--   cli_tool/safety/policy.py: Safety/Policy, with the IP literals in Safety/IpAddress.
--   cli_tool/workflows/xpon_remediation.py and netconf_edit.py: Workflows. They call Safety/Policy.
--   cli_tool/transfer/paths.py, models.py and sftp.py: Transfer/Paths, Transfer/Models and
--     Transfer/Sftp, over the local files of Transfer/Local. Transfer/Local/Outcome follows the
--     temporary file of a download, and Transfer/Local/Refinement states a download as one step.
--   cli_tool/transfer/ftp.py: Transfer/Ftp. Options has the checks of the constructor, Session the
--     connection, Listing and Stat the metadata, Facts, UnixList and Calendar the parsers, Download
--     the download. The client uses Transfer/Paths and Transfer/Local as the SFTP client does.
--   cli_tool/transport/ssh.py, `FileTokenSemaphore`: Ssh/Tokens has its methods as functions on a
--     directory of token files, Ssh/Tokens/System its system calls as steps of many threads and
--     processes. Ssh/Pool has `PooledSshSession` and `SshSessionPool`, for one thread, over a record
--     `Shell` of what a session does; a count of the tokens that are held stands for their files.
--     Ssh/Connect has the attempts of `SshCliSession.connect`, over a record `Server`, which Ssh/Session
--     fills: it has the other methods of `SshCliSession`, and Ssh/Session/Run those that run commands
--     and `SshCliClient`.
--   cli_tool/transport/serial.py: Serial, which shares the tests for a prompt and the patterns of pagers
--     and confirmations with Telnet, and the cleaning of an output with Ssh/Session. Its patterns of a
--     login are its own, beside those of Telnet in Telnet/Patterns.
--   cli_tool/parsers/line_card_status.py: Parsers/LineCardStatus.
--   cli_tool/models.py, parsers/text_tokens.py, workflows/verify.py and driver_verify.py:
--     Workflows/Verify. cli_tool/workflows/line_card_preflight.py: Workflows/LineCardPreflight, which
--     parses the output that was verified.
--   cli_tool/devices/registry.py: Devices/Registry; its Order identifies registries with the same lookups,
--     in a quotient.
--   cli_tool/catalog/models.py: Devices/Catalog, with the validation of loader.py. The functions of
--     loader.py that load: Devices/Loader.
--   tools/cli_tool_netconf_test.py: Tools/NetconfTest, with `_validate_args`; Run has the operations over
--     Netconf and the gate of Workflows/NetconfEdit, and the exit code.
--   tools/cli_tool_readonly_transfer.py and cli_tool/reporting/transfer.py: Tools/ReadonlyTransfer. Run
--     is over the interface of cli_tool/transfer/base.py, which Clients fills with the FTP client.
--   tools/cli_tool_readonly_smoke.py: Tools/ReadonlySmoke. Settings reads one setting, Sources finds where
--     settings come from, Target the device and its password, Config the whole configuration and the
--     transport, and Run loads the driver by Devices/Loader, runs Workflows/Verify and keeps the
--     outputs by Reporting/Patterns. The devices are a record `Devices` of the three transports.
--   cli_tool/reporting/redaction.py: Reporting/Patterns for texts, Reporting/Redaction for values.
--   Base has the shared names, lists, errors, and `Exec`, the code that changes a state and may
--     raise; Text has Python's `str`.
--
-- Code of others is a parameter: ncclient and its SSH transport (the record `Ncclient`), paramiko
-- (the records `Remote` and `SshClient`), ftplib and ssl (the record `Ftplib`, whose `retrbinary`
-- takes the callback), PyYAML and the files it is given, `str.format_map`, a socket with its clock
-- and codec (`Conn`), pyserial (`Port`), the package `config_loader`, SHA-256 (`key_digest`,
-- `hexdigest`), `uuid4` (`unique`), the parser of IPv6 literals (`ipv6`), the signal 0 to a process
-- (`alive`), the word characters of Unicode (`other_word`). So are a session of the pool (`Shell`),
-- and a transport and a driver of the workflows (`Transport`, `Driver`), by what their clients call.
-- A call of these may return any value or raise, and go to any state; the theorems that assume more
-- (that closing a connection does not raise, or that a process lives) say so.
--
-- Bounds and fuel. A round of the Telnet loop takes at least one byte, and the fuel is the number of
-- bytes. A round of the copying loop reads at least one byte or ends it, and a total above
-- `max_download_bytes` ends it: the fuel is two more than that. The passes of `acquire` until its
-- deadline are a list, with the directory that each finds. A read of a Telnet session has as many
-- rounds as the clock allows, a number of the parameter; so have the reads of
-- an SSH or a serial session. Python's integers have no bound, and those of the model have none.
--
-- Not modelled. Elapsed times, time-outs and clocks. What an f-string interpolates into a message.
-- Local directories are there, and writing to a file that was created does not fail. Case folding and
-- lower case are those of ASCII. A float that is read from a text is a parameter.
-- The registry of the SSH pools, the xPON tool, the parsers of the command lines and the writing of
-- reports are not in this library.
pub mod Base
pub mod Reporting
pub mod Serial
pub mod Text
pub mod Telnet
pub mod Netconf
pub mod Parsers
pub mod Safety
pub mod Transfer
pub mod Ssh
pub mod Workflows
pub mod Devices
pub mod Tools

-- ===== src/Tools/ReadonlyTransfer.antt =====
-- tools/cli_tool_readonly_transfer.py: the validation of the arguments, the credentials, and the client
-- that is built from them. `legacy_list_format` has one choice, and is whether it is given; a port or a
-- limit below 0 is refused as 0 is.
pub mod Accepted
pub mod Run
pub mod Clients
pub mod FtpRun
use device_cli_tool.Base.{
  ℕ, Bool, true, false, not, ◌&&◌, ◌||◌, Option, none, some, [], ◌∷◌, ltb, if◌then◌else◌, is_empty,
  is_none, Result, ok, err, system_exit, raise_if, ◌>>=◌, ◌>>◌,
}
use device_cli_tool.Text.{Str, codes, strip}
use device_cli_tool.Transfer.Sftp.Options as Sftp
use device_cli_tool.Transfer.Ftp.Options as Ftp

-- The choices of `--protocol` and of the operation.
pub data Protocol : Type 0 where
  sftp ftps ftps_implicit ftp : Protocol

pub data Operation : Type 0 where
  list_files stat exists download : Operation

pub record Args : Type 0 where
  pub operation : Operation
  pub protocol : Protocol
  pub host : Str
  pub port : Option ℕ
  pub username : Str
  pub password_env : Option Str
  pub private_key : Option Str
  pub private_key_passphrase_env : Option Str
  pub timeout_positive : Bool
  pub known_hosts : Option Str
  pub allow_unknown_host_key : Bool
  pub ca_file : Option Str
  pub allow_unverified_tls : Bool
  pub allow_insecure_ftp : Bool
  pub active_mode : Bool
  pub allow_legacy_listing : Bool
  pub legacy_list_format : Bool
  pub remote_root : Str
  pub remote_path : Str
  pub local_path : Option Str
  pub max_download_bytes : ℕ
  pub overwrite : Bool

abbrev pub protocol_name : Protocol → Str
protocol_name sftp = codes "sftp"
protocol_name ftps = codes "ftps"
protocol_name ftps_implicit = codes "ftps-implicit"
protocol_name ftp = codes "ftp"

abbrev pub is_sftp : Protocol → Bool
is_sftp sftp = true
is_sftp _ = false

abbrev pub is_ftp : Protocol → Bool
is_ftp ftp = true
is_ftp _ = false

abbrev pub is_download : Operation → Bool
is_download download = true
is_download _ = false

abbrev bool_eq : Bool → Bool → Bool
bool_eq true b = b
bool_eq false b = not b

abbrev pub blank_name : Option Str → Bool
blank_name none = false
blank_name (some s) = is_empty (strip s)

abbrev pub out_of_range : Option ℕ → Bool
out_of_range none = false
out_of_range (some port) = ltb port 1 || ltb 65535 port

-- The options of an operation, and the options of a protocol.
unfoldable pub validate_operation : Args → Result (Unit {0})
validate_operation a = do
  raise_if (blank_name a.password_env)
      (system_exit "--password-env must be a non-empty environment variable name")
  raise_if (Sftp.is_given a.private_key_passphrase_env && not (Sftp.is_given a.private_key))
      (system_exit "--private-key-passphrase-env requires --private-key")
  raise_if (out_of_range a.port) (system_exit "--port must be between 1 and 65535")
  raise_if (not a.timeout_positive) (system_exit "--timeout must be greater than 0")
  raise_if (ltb a.max_download_bytes 1) (system_exit "--max-download-bytes must be greater than 0")
  raise_if (is_download a.operation && not (Sftp.is_given a.local_path))
      (system_exit "--local-path is required for download")
  raise_if (not (is_download a.operation) && Sftp.is_given a.local_path)
      (system_exit "--local-path is only valid for download")
  raise_if (not (is_download a.operation) && a.overwrite)
      (system_exit "--overwrite is only valid for download")

unfoldable pub validate_protocol : Args → Result (Unit {0})
validate_protocol a = do
  raise_if
      (not (is_sftp a.protocol)
        && (Sftp.is_given a.private_key || Sftp.is_given a.private_key_passphrase_env))
      (system_exit "private-key authentication is only valid for SFTP")
  raise_if (not (is_sftp a.protocol) && (Sftp.is_given a.known_hosts || a.allow_unknown_host_key))
      (system_exit "known-host options are only valid for SFTP")
  raise_if
      (is_sftp a.protocol
        && (Sftp.is_given a.ca_file
            || a.allow_unverified_tls
            || a.allow_insecure_ftp
            || a.active_mode
            || a.allow_legacy_listing
            || a.legacy_list_format))
      (system_exit "FTP/TLS options are not valid for SFTP")
  raise_if (is_ftp a.protocol && not a.allow_insecure_ftp)
      (system_exit "FTP is plaintext; pass --allow-insecure-ftp for an isolated lab")
  raise_if (not (is_ftp a.protocol) && a.allow_insecure_ftp)
      (system_exit "--allow-insecure-ftp is only valid with --protocol ftp")
  raise_if (is_sftp a.protocol && a.active_mode)
      (system_exit "--active-mode is only valid for FTP/FTPS")
  raise_if (not (bool_eq a.allow_legacy_listing a.legacy_list_format))
      (system_exit "--allow-legacy-listing and --legacy-list-format must be provided together")
  raise_if (is_sftp a.protocol && (a.allow_legacy_listing || a.legacy_list_format))
      (system_exit "legacy listing options are only valid for FTP/FTPS")
  raise_if
      ((is_sftp a.protocol || is_ftp a.protocol)
        && (Sftp.is_given a.ca_file || a.allow_unverified_tls))
      (system_exit "TLS certificate options require FTPS")

-- `_validate_args`
unfoldable pub validate_args : Args → Result (Unit {0})
validate_args a = do validate_operation a; validate_protocol a

pub record Auth : Type 0 where
  pub password : Option Str
  pub passphrase : Option Str

-- The passphrase of a private key, where its variable is named.
abbrev pub key_auth : Option Str → Result Auth
key_auth none = err (system_exit "missing private key passphrase env var")
key_auth (some passphrase) = ok (record { password = none; passphrase = some passphrase })

abbrev pub password_auth : Option Str → Result Auth
password_auth none = err (system_exit "missing password env var")
password_auth (some []) = err (system_exit "missing password env var")
password_auth (some (c ∷ s)) = ok (record { password = some (c ∷ s); passphrase = none })

-- `value or default`
abbrev pub or_default : Str → Option Str → Str
or_default default none = default
or_default default (some []) = default
or_default default (some (c ∷ s)) = c ∷ s

abbrev pub default_env : Protocol → Str
default_env p = if is_sftp p then codes "CLI_TOOL_SFTP_PASSWORD" else codes "CLI_TOOL_FTP_PASSWORD"

-- `_resolve_auth`, over the environment.
unfoldable pub resolve_auth : (Str → Option Str) → Args → Result Auth
resolve_auth environ a =
    if Sftp.is_given a.private_key
    then (if Sftp.is_given a.private_key_passphrase_env
        then key_auth (environ (or_default [] a.private_key_passphrase_env))
        else ok (record { password = none; passphrase = none }))
    else password_auth (environ (or_default (default_env a.protocol) a.password_env))

-- `args.port`, or the default of the protocol.
abbrev pub resolved_port : Args → ℕ
resolved_port a = resolve_port a.protocol a.port
  where
    resolve_port : Protocol → Option ℕ → ℕ
    resolve_port p (some port) = port
    resolve_port sftp none = 22
    resolve_port ftps_implicit none = 990
    resolve_port _ none = 21

-- The arguments of the two clients that `_build_client` gives.
unfoldable pub sftp_arguments : Args → Auth → Sftp.Arguments
sftp_arguments a auth = record {
  host = a.host;
  username = a.username;
  password = auth.password;
  port = resolved_port a;
  timeout_positive = a.timeout_positive;
  private_key_path = a.private_key;
  private_key_passphrase = auth.passphrase;
  remote_root = a.remote_root;
  max_download_bytes = a.max_download_bytes;
  chunk_size = 65536;
}

unfoldable pub ftp_arguments : Args → Auth → Ftp.Arguments
ftp_arguments a auth = record {
  host = a.host;
  username = a.username;
  password = or_default [] auth.password;
  protocol = protocol_name a.protocol;
  port = some (resolved_port a);
  timeout_positive = a.timeout_positive;
  remote_root = a.remote_root;
  passive = not a.active_mode;
  ca_file = a.ca_file;
  allow_unverified_tls = a.allow_unverified_tls;
  allow_insecure_ftp = a.allow_insecure_ftp;
  allow_legacy_listing = a.allow_legacy_listing;
  legacy_list_format = if a.legacy_list_format then some (codes "unix") else none;
  max_download_bytes = a.max_download_bytes;
  chunk_size = 65536;
}

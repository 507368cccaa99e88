-- ===== src/Transfer/Ftp/Options.antt =====
-- The checks of `FtpReadOnlyClient.__init__`, and the attributes that it sets.
pub mod Checked
use device_cli_tool.Base.{
  ℕ, Bool, true, false, not, ◌&&◌, ◌||◌, Option, none, some, List, [], ◌∷◌, ltb, if◌then◌else◌,
  is_empty, is_none, Result, ok, value_error, permission_error, raise_if, ◌>>=◌, ◌>>◌,
}
use device_cli_tool.Text.{Str, codes, lower, str_eq, str_mem}
use device_cli_tool.Transfer.Paths.{resolve_remote_path}

-- The arguments. A port, a limit or a chunk size below 0 is refused as 0 is.
pub record Arguments : Type 0 where
  pub host : Str
  pub username : Str
  pub password : Str
  pub protocol : Str
  pub port : Option ℕ
  pub timeout_positive : Bool
  pub remote_root : Str
  pub passive : Bool
  pub ca_file : Option Str
  pub allow_unverified_tls : Bool
  pub allow_insecure_ftp : Bool
  pub allow_legacy_listing : Bool
  pub legacy_list_format : Option Str
  pub max_download_bytes : ℕ
  pub chunk_size : ℕ

-- The attributes that the methods use.
pub record FtpClient : Type 0 where
  pub protocol : Str
  pub port : ℕ
  pub remote_root : Str
  pub passive : Bool
  pub ca_file : Option Str
  pub allow_unverified_tls : Bool
  pub allow_legacy_listing : Bool
  pub legacy_list_format : Option Str
  pub max_download_bytes : ℕ
  pub chunk_size : ℕ

abbrev pub ftp_protocols : List Str
ftp_protocols = codes "ftp" ∷ codes "ftps" ∷ codes "ftps-implicit" ∷ []

abbrev pub is_plaintext : Str → Bool
is_plaintext protocol = str_eq protocol (codes "ftp")

-- `DEFAULT_PORTS[protocol]` of one of the three protocols, unless a port is given.
abbrev pub resolved_port : Str → Option ℕ → ℕ
resolved_port protocol (some port) = port
resolved_port protocol none = if str_eq protocol (codes "ftps-implicit") then 990 else 21

-- `value if value else None`
abbrev pub unless_empty : Option Str → Option Str
unless_empty none = none
unless_empty (some []) = none
unless_empty (some (c ∷ s)) = some (c ∷ s)

abbrev pub lowered : Option Str → Option Str
lowered none = none
lowered (some s) = some (lower s)

abbrev pub is_unix : Option Str → Bool
is_unix none = false
is_unix (some s) = str_eq s (codes "unix")

abbrev bool_eq : Bool → Bool → Bool
bool_eq true b = b
bool_eq false b = not b

-- `protocol`, `port` and `format` are the normalized ones.
unfoldable pub check_options : Arguments → Str → ℕ → Option Str → Result (Unit {0})
check_options a protocol port format = do
  raise_if (not (str_mem protocol ftp_protocols)) (value_error "unsupported FTP protocol")
  raise_if (is_empty a.host) (value_error "host is required")
  raise_if (is_empty a.username) (value_error "username is required")
  raise_if (is_empty a.password) (value_error "password is required")
  raise_if (ltb port 1 || ltb 65535 port) (value_error "port must be between 1 and 65535")
  raise_if (not a.timeout_positive) (value_error "timeout must be greater than 0")
  raise_if (ltb a.max_download_bytes 1) (value_error "max_download_bytes must be greater than 0")
  raise_if (ltb a.chunk_size 1) (value_error "chunk_size must be greater than 0")
  raise_if (is_plaintext protocol && not a.allow_insecure_ftp)
      (permission_error "FTP is plaintext; set allow_insecure_ftp=True only for an isolated lab")
  raise_if
      (is_plaintext protocol && (not (is_none (unless_empty a.ca_file)) || a.allow_unverified_tls))
      (value_error "TLS options are not valid for plaintext FTP")
  raise_if (not (bool_eq a.allow_legacy_listing (not (is_none format))))
      (value_error "allow_legacy_listing and legacy_list_format must be provided together")
  raise_if (not (is_none format) && not (is_unix format))
      (value_error "unsupported legacy LIST format")

unfoldable pub create_client : Arguments → Result FtpClient
create_client a =
    let protocol = lower a.protocol in
    let port = resolved_port protocol a.port in
    let format = lowered (unless_empty a.legacy_list_format) in
    (do
      check_options a protocol port format
      root ← resolve_remote_path a.remote_root (codes ".")
      ok (record {
        protocol = protocol;
        port = port;
        remote_root = root;
        passive = a.passive;
        ca_file = unless_empty a.ca_file;
        allow_unverified_tls = a.allow_unverified_tls;
        allow_legacy_listing = a.allow_legacy_listing;
        legacy_list_format = format;
        max_download_bytes = a.max_download_bytes;
        chunk_size = a.chunk_size;
      }))

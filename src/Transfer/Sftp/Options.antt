-- ===== src/Transfer/Sftp/Options.antt =====
-- The checks of `SftpReadOnlyClient.__init__`.
use device_cli_tool.Base.{
  ℕ, Bool, true, false, not, ◌&&◌, ◌||◌, Option, none, some, ltb, if◌then◌else◌, is_empty, is_none,
  Result, ok, err, value_error, file_not_found, ◌>>=◌, ◌>>◌,
}
use device_cli_tool.Text.{Str, codes}
use device_cli_tool.Transfer.Paths.{resolve_remote_path}

-- The arguments. A port, a limit or a chunk size below 0 is refused as 0 is.
pub record Arguments : Type 0 where
  pub host : Str
  pub username : Str
  pub password : Option Str
  pub port : ℕ
  pub timeout_positive : Bool
  pub private_key_path : Option Str
  pub private_key_passphrase : Option Str
  pub remote_root : Str
  pub max_download_bytes : ℕ
  pub chunk_size : ℕ

-- `bool(value)`
abbrev pub is_given : Option Str → Bool
is_given none = false
is_given (some s) = not (is_empty s)

abbrev bool_eq : Bool → Bool → Bool
bool_eq true b = b
bool_eq false b = not b

-- The attributes that the methods use. `is_file` is the test of the private key's file.
pub record Client : Type 0 where
  pub remote_root : Str
  pub max_download_bytes : ℕ
  pub chunk_size : ℕ

unfoldable pub check_arguments : Arguments → Bool → Result (Unit {0})
check_arguments a is_file =
    if is_empty a.host
    then err (value_error "host is required")
    else if is_empty a.username
    then err (value_error "username is required")
    else if bool_eq (is_given a.password) (is_given a.private_key_path)
    then err (value_error "configure exactly one SFTP auth method: password or private_key_path")
    else if is_given a.private_key_passphrase && is_none a.private_key_path
    then err (value_error "private_key_passphrase requires private_key_path")
    else if is_given a.private_key_path && not is_file
    then err (file_not_found "private key file does not exist")
    else if ltb a.port 1 || ltb 65535 a.port
    then err (value_error "port must be between 1 and 65535")
    else if not a.timeout_positive
    then err (value_error "timeout must be greater than 0")
    else if ltb a.max_download_bytes 1
    then err (value_error "max_download_bytes must be greater than 0")
    else if ltb a.chunk_size 1
    then err (value_error "chunk_size must be greater than 0")
    else ok tt

unfoldable pub create_client : Arguments → Bool → Result Client
unfolding check_arguments
create_client a is_file = do
  check_arguments a is_file
  root ← resolve_remote_path a.remote_root (codes ".")
  ok (record {
    remote_root = root;
    max_download_bytes = a.max_download_bytes;
    chunk_size = a.chunk_size;
  })

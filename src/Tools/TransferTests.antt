-- ===== src/Tools/TransferTests.antt =====
-- The transfer tool on the scripted FTP server, and the theorems at concrete inputs.
use device_cli_tool.Base.{true, false, Option, none, some, ◌≡◌, refl, ok, is_ok}
use device_cli_tool.Base.Exec.{◌>>=◌}
use device_cli_tool.Text.{Str, codes, strip, lstrip, rstrip, split_on, join}
use device_cli_tool.Transfer.Local.{FilePath}
use device_cli_tool.Transfer.Paths.{
  pure_path, is_absolute, parts, path_text, join_path, candidate_path, resolve_remote_path,
}
use device_cli_tool.Transfer.Sftp.Options as Sftp
use device_cli_tool.Transfer.Ftp.Options.{create_client, check_options}
use device_cli_tool.Transfer.Ftp.Options as Ftp
use device_cli_tool.Transfer.Ftp.Server.{World}
use device_cli_tool.Transfer.Ftp.Script.{server}
use device_cli_tool.Tools.ReadonlyTransfer.{
  ftps, exists, Args, Auth, is_sftp, validate_operation, validate_protocol, validate_args,
  resolve_auth, sftp_arguments, ftp_arguments,
}
use device_cli_tool.Tools.ReadonlyTransfer.Accepted.{validated-accepted}
use device_cli_tool.Tools.ReadonlyTransfer.Run.{run_transfer}
use device_cli_tool.Tools.ReadonlyTransfer.Clients.{build_client}
use device_cli_tool.Tools.ReadonlyTransfer.FtpRun.{ftp_run-NotConnected}

abbrev args : Args
args = record {
  operation = exists;
  protocol = ftps;
  host = codes "192.0.2.1";
  port = none;
  username = codes "reader";
  password_env = none;
  private_key = none;
  private_key_passphrase_env = none;
  timeout_positive = true;
  known_hosts = none;
  allow_unknown_host_key = false;
  ca_file = none;
  allow_unverified_tls = false;
  allow_insecure_ftp = false;
  active_mode = false;
  allow_legacy_listing = true;
  legacy_list_format = true;
  remote_root = codes "/logs";
  remote_path = codes "a.log";
  local_path = none;
  max_download_bytes = 100;
  overwrite = false;
}

abbrev environ : Str → Option Str
environ name = some (codes "secret")

abbrev auth : Auth
auth = record { password = some (codes "secret"); passphrase = none }

args_valid : validate_args args ≡ ok tt
unfolding validate_args validate_operation validate_protocol strip lstrip rstrip
args_valid = refl

args_auth : resolve_auth environ args ≡ ok auth
unfolding resolve_auth
args_auth = refl

root_valid : is_ok (resolve_remote_path (codes "/logs") (codes ".")) ≡ true
unfolding resolve_remote_path pure_path is_absolute parts path_text join_path candidate_path strip
    lstrip rstrip split_on join
root_valid = refl

validated-accepted_example :
    (is_sftp ftps ≡ true → is_ok (Sftp.create_client (sftp_arguments args auth) false) ≡ true)
    × (is_sftp ftps ≡ false → is_ok (Ftp.create_client (ftp_arguments args auth)) ≡ true)
validated-accepted_example =
    validated-accepted environ args auth false args_valid args_auth refl refl (λ h. absurd cc)
      root_valid

abbrev world : World (server (ok tt))
world = record {
  remote = tt;
  connected = false;
  last_listing_method = none;
  last_metadata_method = none;
  files = λ q. none;
}

abbrev path : Str → FilePath
path name = record { parent = codes "/tmp"; name = name }

ftp_run-NotConnected_example :
    (run_transfer
      (λ s. s)
      environ
      (build_client (server (ok tt)) (λ s. s) true path (codes "u1"))
      false
      args
      world).1.connected
    ≡ false
ftp_run-NotConnected_example =
    ftp_run-NotConnected (server (ok tt)) (λ s. s) (λ s. s) environ true path (codes "u1") false
      args world refl

-- Without the credentials the tool exits before it builds a client.
no_password_run :
    is_ok
      (run_transfer
        (λ s. s)
        (λ name. none)
        (build_client (server (ok tt)) (λ s. s) true path (codes "u1"))
        false
        args
        world).0
    ≡ false
unfolding run_transfer ◌>>=◌ validate_args validate_operation validate_protocol resolve_auth strip
    lstrip rstrip
no_password_run = refl

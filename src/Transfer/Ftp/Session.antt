-- ===== src/Transfer/Ftp/Session.antt =====
-- The session of `FtpReadOnlyClient`: `_resolve`, `connect`, `close`, `_require_ftp`.
pub mod Calls
pub mod Protected
use device_cli_tool.Base.{
  Bool, true, false, not, ◌||◌, Option, none, some, if◌then◌else◌, Result, ok, err, runtime_error,
  file_not_found, unsafe_remote_path,
}
use device_cli_tool.Base.Exec.{Exec, pure, raise, gets, ◌>>=◌, ◌>>◌, try_except, try_reraise}
use device_cli_tool.Text.{Str, codes, str_eq, has_char}
use device_cli_tool.Transfer.Paths.{resolve_remote_path}
use device_cli_tool.Transfer.Ftp.Options.{FtpClient, is_plaintext}
use device_cli_tool.Transfer.Ftp.Server.{
  Security, plain, explicit_tls, implicit_tls, Ftplib, World, on_server,
}

module _ (c : FtpClient) where
  -- `_resolve`
  unfoldable pub resolve : Str → Result Str
  resolve remote_path =
      if has_char 13 remote_path || has_char 10 remote_path
      then err (unsafe_remote_path "FTP remote path cannot contain line breaks")
      else resolve_remote_path c.remote_root remote_path

module _ (F : Ftplib) where
  abbrev pub set_connected : Bool → Exec (World F) (Unit {0})
  set_connected b w = (ok tt, record w { connected = b })

  -- `_tls_context`: whether certificates are verified.
  abbrev pub default_context : Option Str → Exec (World F) Bool
  default_context none = pure true
  default_context (some ca_file) =
      if not (F.is_file ca_file)
      then raise (file_not_found "CA file does not exist")
      else do on_server (F.load_ca ca_file); pure true

  unfoldable pub tls_context : FtpClient → Exec (World F) Bool
  unfolding ◌>>=◌
  tls_context c = if c.allow_unverified_tls then pure false else default_context c.ca_file

  abbrev secured : FtpClient → Bool → Security
  secured c verified =
      if str_eq c.protocol (codes "ftps-implicit")
      then implicit_tls verified
      else explicit_tls verified

  unfoldable pub new_client : FtpClient → Exec (World F) (Unit {0})
  new_client c =
      if is_plaintext c.protocol
      then on_server (F.new_client plain)
      else do verified ← tls_context c; on_server (F.new_client (secured c verified))

  -- The body of the `try` of `connect`.
  unfoldable pub open_session : FtpClient → Exec (World F) (Unit {0})
  open_session c = do
    on_server (F.connect c.port)
    on_server F.login
    (if not (is_plaintext c.protocol) then on_server F.prot_p else pure tt)
    on_server (F.set_pasv c.passive)
    set_connected true

  unfoldable pub open_new : FtpClient → Exec (World F) (Unit {0})
  open_new c = do new_client c; try_reraise (open_session c) (on_server F.close)

  unfoldable pub connect : FtpClient → Exec (World F) (Unit {0})
  unfolding open_new
  connect c w = if w.connected then (ok tt, w) else open_new c w

  unfoldable pub close_open : Exec (World F) (Unit {0})
  close_open = do set_connected false; try_except (on_server F.quit) (λ e. on_server F.close)

  unfoldable pub close : Exec (World F) (Unit {0})
  unfolding close_open
  close w = if w.connected then close_open w else (ok tt, w)

  -- `_require_ftp`
  unfoldable pub require_ftp : FtpClient → Exec (World F) (Unit {0})
  require_ftp c = do
    connect c
    is_open ← gets (λ (w : World F). w.connected)
    if is_open then pure tt else raise (runtime_error "FTP session is not available")

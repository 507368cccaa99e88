-- ===== src/Transfer/Sftp/Remote.antt =====
-- What cli_tool/transfer/sftp.py uses of paramiko, as a parameter, and the world of a client: the
-- server's state, whether a session is open, and the local files.
use device_cli_tool.Base.{ℕ, Bool, Option, List}
use device_cli_tool.Base.Exec.{Exec}
use device_cli_tool.Text.{Str}
use device_cli_tool.Transfer.Local.{Files, Content}

-- `st_mode`, `st_size` and `st_mtime`, each of which can be missing.
pub record Attributes : Type 0 where
  pub st_mode : Option ℕ
  pub st_size : Option ℕ
  pub st_mtime : Option ℕ

-- `configure_host_keys` raises where the known_hosts file is missing, an error without an errno, so an
-- `os_error` here, where `file_not_found` stands for ENOENT; `open_session` is
-- `client.connect` and `client.open_sftp`; `read` is one `source.read(chunk_size)` of the file that
-- `open_file` opened.
pub record Remote : Type 1 where
  pub State : Type 0
  pub configure_host_keys : Exec State (Unit {0})
  pub open_session : Exec State (Unit {0})
  pub close_client : Exec State (Unit {0})
  pub close_sftp : Exec State (Unit {0})
  pub listdir_attr : Str → Exec State (List (Str × Attributes))
  pub lstat : Str → Exec State Attributes
  pub open_file : Str → Exec State (Unit {0})
  pub read : ℕ → Exec State Content

pub record World (R : Remote) : Type 0 where
  pub remote : R.State
  pub connected : Bool
  pub files : Files

module _ {R : Remote} {A : Type 0} where
  -- A call of the server.
  unfoldable pub on_remote : Exec R.State A → Exec (World R) A
  on_remote action w = let (r, s) = action w.remote in (r, record w { remote = s })

  -- A call of the local file system.
  unfoldable pub on_files : Exec Files A → Exec (World R) A
  on_files action w = let (r, files) = action w.files in (r, record w { files = files })

-- ===== src/Transfer/Models.antt =====
-- cli_tool/transfer/models.py. A modification time is a whole number of seconds.
use device_cli_tool.Base.{ℕ, ℤ, Bool, Option}
use device_cli_tool.Text.{Str}

pub record RemoteFileInfo : Type 0 where
  pub path : Str
  pub size : ℤ
  pub modified_time : Option ℤ
  pub is_directory : Bool
  pub is_regular_file : Bool
  pub is_symlink : Bool

pub record DownloadResult : Type 0 where
  pub remote_path : Str
  pub local_path : Str
  pub size : ℕ
  pub sha256 : Str

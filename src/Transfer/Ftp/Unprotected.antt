-- ===== src/Transfer/Ftp/Unprotected.antt =====
-- The methods of a client whose server does not protect the data channel.
use device_cli_tool.Base.{Bool, false, ◌≡◌, IsErr}
use device_cli_tool.Base.Exec.Keeps.{Keeps-lift}
use device_cli_tool.Text.{Str}
use device_cli_tool.Transfer.Local.{FilePath, Content}
use device_cli_tool.Transfer.Ftp.Options.{FtpClient, is_plaintext}
use device_cli_tool.Transfer.Ftp.Server.{Ftplib, World}
use device_cli_tool.Transfer.Ftp.Session.Protected.{
  Raises, Raises-bind, Raises-IsErr, Keeps-Raises, NotConnected, require_ftp-Raises,
}
use device_cli_tool.Transfer.Ftp.Listing.{list_files}
use device_cli_tool.Transfer.Ftp.Stat.{stat}
use device_cli_tool.Transfer.Ftp.Download.{download}

module _ (F : Ftplib) (c : FtpClient) (refused : (s : F.State) → IsErr (F.prot_p s).0)
    (tls : is_plaintext c.protocol ≡ false) where
  list_files-Raises : (remote_path : Str) → Raises NotConnected (list_files F c remote_path)
  unfolding list_files
  list_files-Raises remote_path =
      Keeps-Raises _ _ (Keeps-lift _)
        λ directory. Raises-bind _ _ (require_ftp-Raises F c refused tls)

  stat-Raises : (remote_path : Str) → Raises NotConnected (stat F c remote_path)
  unfolding stat
  stat-Raises remote_path =
      Keeps-Raises _ _ (Keeps-lift _)
        λ resolved. Raises-bind _ _ (require_ftp-Raises F c refused tls)

  download-Raises :
      (hexdigest : Content → Str) (hard_links : Bool) (remote_path : Str) (destination : FilePath)
      (unique : Str) (overwrite : Bool)
      → Raises NotConnected
          (download F hexdigest c hard_links remote_path destination unique overwrite)
  unfolding download
  download-Raises hexdigest hard_links remote_path destination unique overwrite =
      Raises-bind _ _ (stat-Raises remote_path)

-- Where the server refuses PROT P whatever its state, a client of FTPS that is not connected lists,
-- reads and downloads nothing: each of the three calls raises.
pub unprotected-IsErr :
    (F : Ftplib) (c : FtpClient) (w : World F) (hexdigest : Content → Str) (hard_links : Bool)
    (remote_path : Str) (destination : FilePath) (unique : Str) (overwrite : Bool)
    → ((s : F.State) → IsErr (F.prot_p s).0)
    → is_plaintext c.protocol ≡ false
    → w.connected ≡ false
    → IsErr (list_files F c remote_path w).0
      × IsErr (stat F c remote_path w).0
      × IsErr (download F hexdigest c hard_links remote_path destination unique overwrite w).0
unprotected-IsErr F c w hexdigest hard_links remote_path destination unique overwrite refused tls
      h =
    (
      Raises-IsErr _ w (list_files-Raises F c refused tls remote_path) h,
      Raises-IsErr _ w (stat-Raises F c refused tls remote_path) h,
      Raises-IsErr _ w
          (download-Raises F c refused tls hexdigest hard_links remote_path destination unique
            overwrite)
          h,
    )

-- ===== src/Tools/ReadonlyTransfer/Clients.antt =====
-- `_build_client` of tools/cli_tool_readonly_transfer.py for FTP: the client behind the interface.
-- `path` reads a local path, `unique` is the name that `uuid4` gives.
use device_cli_tool.Base.{Bool, Result, ok, ◌>>=◌}
use device_cli_tool.Text.{Str}
use device_cli_tool.Transfer.Local.{FilePath, Content}
use device_cli_tool.Transfer.Ftp.Options.{FtpClient, create_client}
use device_cli_tool.Transfer.Ftp.Server.{Ftplib, World}
use device_cli_tool.Transfer.Ftp.Session.{connect, close}
use device_cli_tool.Transfer.Ftp.Listing.{list_files}
use device_cli_tool.Transfer.Ftp.Stat.{stat, file_is_there}
use device_cli_tool.Transfer.Ftp.Download.{download}
use device_cli_tool.Tools.ReadonlyTransfer.{Args, Auth, ftp_arguments}
use device_cli_tool.Tools.ReadonlyTransfer.Run.{ReadOnlyFileTransfer}

module _ (F : Ftplib) (hexdigest : Content → Str) (hard_links : Bool) (path : Str → FilePath)
    (unique : Str) where
  unfoldable pub ftp_transfer : FtpClient → ReadOnlyFileTransfer (World F)
  ftp_transfer c = record {
    connect = connect F c;
    close = close F;
    listed = list_files F c;
    info = stat F c;
    is_there = file_is_there F c;
    downloaded = λ remote_path local_path overwrite.
        download F hexdigest c hard_links remote_path (path local_path) unique overwrite;
    listing_method = λ w. w.last_listing_method;
    metadata_method = λ w. w.last_metadata_method;
  }

  unfoldable pub build_client : Args → Auth → Result (ReadOnlyFileTransfer (World F))
  build_client a auth = create_client (ftp_arguments a auth) >>= λ c. ok (ftp_transfer c)

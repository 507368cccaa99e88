-- ===== src/Transfer/Ftp/Stat/MissingCa.antt =====
-- `exists` without the file of the certificate authority.
use device_cli_tool.Base.{false, some, ◌≡◌, ok}
use device_cli_tool.Base.Exec.{◌>>=◌}
use device_cli_tool.Text.{Str}
use device_cli_tool.Transfer.Ftp.Options.{FtpClient, is_plaintext}
use device_cli_tool.Transfer.Ftp.Server.{Ftplib, World}
use device_cli_tool.Transfer.Ftp.Session.{
  resolve, require_ftp, connect, open_new, new_client, tls_context,
}
use device_cli_tool.Transfer.Ftp.Stat.{stat, file_is_there}

-- Where the CA file of a client of FTPS does not exist, `exists` on a client that is not connected
-- answers False for every path that the client resolves, and asks no server.
pub exists-missing_ca :
    (F : Ftplib) (c : FtpClient) (remote_path resolved ca_file : Str) (w : World F)
    → is_plaintext c.protocol ≡ false
    → c.allow_unverified_tls ≡ false
    → c.ca_file ≡ some ca_file
    → F.is_file ca_file ≡ false
    → w.connected ≡ false
    → resolve c remote_path ≡ ok resolved
    → file_is_there F c remote_path w ≡ (ok false, w)
unfolding file_is_there stat require_ftp connect open_new new_client tls_context ◌>>=◌
exists-missing_ca F c remote_path resolved ca_file w tls verified ca missing closed accepted =
    simp (accepted, closed, tls, verified, ca, missing)

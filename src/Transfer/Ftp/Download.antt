-- ===== src/Transfer/Ftp/Download.antt =====
-- `FtpReadOnlyClient.download`, `_commit_local_file` and `_file_identity`. `hexdigest` stands for the
-- SHA-256 of the bytes that were given to `digest.update`, `unique` for `uuid4().hex`.
pub mod Outcome
pub mod Step
use device_cli_tool.Base.{
  ℕ, pos, int_eq, is_above, ◌+◌, Bool, true, false, not, ◌&&◌, ◌||◌, [], ◌++◌, ltb, if◌then◌else◌,
  length, Error, Result, ok, err, value_error, transfer_limit, file_exists, os_error, is_os_error,
}
use device_cli_tool.Base.Exec.{Exec, pure, raise, ◌>>=◌, ◌>>◌, try_reraise, try_except}
use device_cli_tool.Text.{Str, codes}
use device_cli_tool.Transfer.Models.{RemoteFileInfo, DownloadResult}
use device_cli_tool.Transfer.Local.{
  FilePath, Content, Files, exists, part_path, file_path_text, create, write, unlink, replace, link,
}
use device_cli_tool.Transfer.Sftp.Download.{option_eq, bool_eq}
use device_cli_tool.Transfer.Ftp.Options.{FtpClient}
use device_cli_tool.Transfer.Ftp.Server.{Ftplib, World, on_server, on_files}
use device_cli_tool.Transfer.Ftp.Session.{require_ftp}
use device_cli_tool.Transfer.Ftp.Stat.{stat}

-- `_file_identity(a) == _file_identity(b)`
unfoldable pub same_identity : RemoteFileInfo → RemoteFileInfo → Bool
same_identity a b =
    int_eq a.size b.size
    && option_eq a.modified_time b.modified_time
    && bool_eq a.is_directory b.is_directory
    && bool_eq a.is_regular_file b.is_regular_file
    && bool_eq a.is_symlink b.is_symlink

-- The `except` clauses of `_commit_local_file`.
abbrev not_linked : Error → Exec Files (Unit {0})
not_linked (file_exists m) = raise (file_exists "local destination already exists")
not_linked e =
    if is_os_error e
    then raise (os_error "atomic no-overwrite commit requires hard-link support")
    else raise e

unfoldable pub commit_local_file : Bool → FilePath → FilePath → Bool → Exec Files (Unit {0})
unfolding ◌>>=◌
commit_local_file hard_links temporary destination true = replace temporary destination
commit_local_file hard_links temporary destination false = do
  try_except (link hard_links temporary destination) not_linked
  unlink temporary

-- The variables that `receive` changes, and the files.
pub record Receiving : Type 0 where
  pub downloaded : ℕ
  pub digested : Content
  pub files : Files

module _ (c : FtpClient) (temporary : FilePath) where
  -- The callback `receive`.
  unfoldable pub receive : Content → Exec Receiving (Unit {0})
  receive chunk v =
      let total = v.downloaded + length chunk in
      if ltb c.max_download_bytes total
      then (
        err (transfer_limit "download exceeded max_download_bytes"),
        record v { downloaded = total },
      )
      else (
        ok tt,
        record {
          downloaded = total;
          digested = v.digested ++ chunk;
          files = (write temporary chunk v.files).1;
        },
      )

module _ (F : Ftplib) (c : FtpClient) where
  -- `downloaded`, and the bytes that the digest was given.
  abbrev pub received :
      World F → Result (Unit {0}) × F.State × Receiving → Result (ℕ × Content) × World F
  received w (ok u, s, v) =
      (ok (v.downloaded, v.digested), record w { remote = s; files = v.files })
  received w (err e, s, v) = (err e, record w { remote = s; files = v.files })

  -- `retrbinary(f"RETR {path}", receive, blocksize=chunk_size)`
  unfoldable pub retrieve : Str → FilePath → Exec (World F) (ℕ × Content)
  retrieve path temporary w =
      let (r, (s, v)) =
        F.retrbinary (codes "RETR " ++ path) (receive c temporary) c.chunk_size
          (w.remote, record { downloaded = 0; digested = []; files = w.files }) in
      received w (r, s, v)

module _ (F : Ftplib) (hexdigest : Content → Str) (c : FtpClient) (hard_links : Bool) where
  -- The body of the `try`.
  unfoldable pub transfer :
      RemoteFileInfo → FilePath → FilePath → Bool → Exec (World F) (ℕ × Content)
  transfer info destination temporary overwrite = do
    on_files (create temporary)
    require_ftp F c
    (downloaded, digested) ← retrieve F c info.path temporary
    (if not (int_eq (pos downloaded) info.size)
        then raise (os_error "FTP download size mismatch")
        else pure tt)
    final_info ← stat F c info.path
    (if not (same_identity final_info info)
        then raise (os_error "remote file metadata changed during FTP download")
        else pure tt)
    on_files (commit_local_file hard_links temporary destination overwrite)
    pure (downloaded, digested)

  check_info : RemoteFileInfo → Exec (World F) (Unit {0})
  check_info info =
      if not info.is_regular_file || info.is_symlink
      then raise (value_error "FTP download only supports regular non-symlink files")
      else if is_above c.max_download_bytes info.size
      then raise (transfer_limit "remote file size exceeds max_download_bytes")
      else pure tt

  check_destination : FilePath → Bool → Exec (World F) (Unit {0})
  check_destination destination overwrite w =
      if exists destination w.files && not overwrite
      then (err (file_exists "local destination already exists"), w)
      else (ok tt, w)

  unfoldable pub download : Str → FilePath → Str → Bool → Exec (World F) DownloadResult
  unfolding check_info check_destination
  download remote_path destination unique overwrite = do
    info ← stat F c remote_path
    check_info info
    check_destination destination overwrite
    (downloaded, digested) ←
        try_reraise (transfer info destination (part_path destination unique) overwrite)
          (on_files (unlink (part_path destination unique)))
    pure (record {
      remote_path = info.path;
      local_path = file_path_text destination;
      size = downloaded;
      sha256 = hexdigest digested;
    })

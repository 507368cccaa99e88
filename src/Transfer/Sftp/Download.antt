-- ===== src/Transfer/Sftp/Download.antt =====
-- `SftpReadOnlyClient.download`. `hexdigest` stands for the SHA-256 of the bytes that were given to
-- `digest.update`, `unique` for `uuid4().hex`.
pub mod Loop
pub mod Outcome
pub mod Fuel
use device_cli_tool.Base.{
  ℕ, ℤ, pos, int_eq, is_above, zero, suc, ◌+◌, Bool, true, false, not, ◌&&◌, ◌||◌, Option, none,
  some, List, [], ◌∷◌, ◌++◌, ◌==◌, ltb, if◌then◌else◌, is_empty, length, Error, Result, ok, err,
  value_error, transfer_limit, file_exists, os_error, other_error,
}
use device_cli_tool.Base.Exec.{Exec, pure, raise, lift, gets, ◌>>=◌, ◌>>◌, try_reraise}
use device_cli_tool.Text.{Str}
use device_cli_tool.Transfer.Models.{RemoteFileInfo, DownloadResult}
use device_cli_tool.Transfer.Local.{
  FilePath, Content, Files, exists, part_path, file_path_text, create, write, unlink,
  commit_local_file,
}
use device_cli_tool.Transfer.Sftp.Options.{Client}
use device_cli_tool.Transfer.Sftp.Remote.{Remote, World, on_remote, on_files}
use device_cli_tool.Transfer.Sftp.Client.{require_sftp, stat}

abbrev pub option_eq : Option ℤ → Option ℤ → Bool
option_eq none none = true
option_eq none (some n) = false
option_eq (some m) none = false
option_eq (some m) (some n) = int_eq m n

abbrev pub bool_eq : Bool → Bool → Bool
bool_eq true b = b
bool_eq false b = not b

-- `_file_identity(a) == _file_identity(b)`
unfoldable pub same_identity : RemoteFileInfo → RemoteFileInfo → Bool
same_identity a b =
    int_eq a.size b.size
    && option_eq a.modified_time b.modified_time
    && bool_eq a.is_directory b.is_directory
    && bool_eq a.is_regular_file b.is_regular_file
    && bool_eq a.is_symlink b.is_symlink

-- The variables of the loop: `downloaded`, and what the digest has been given.
abbrev pub Progress : Type 0
Progress = ℕ × Content

module _ (R : Remote) (c : Client) (temporary : FilePath) where
  -- One round behind `source.read`; `again` is the next round.
  unfoldable pub after_chunk :
      (Progress → Exec (World R) Progress) → Progress → Content → Exec (World R) Progress
  after_chunk again progress [] = pure progress
  after_chunk again (downloaded, digested) (b ∷ bytes) =
      let total = downloaded + length (b ∷ bytes) in
      if ltb c.max_download_bytes total
      then raise (transfer_limit "download exceeded max_download_bytes")
      else do on_files (write temporary (b ∷ bytes)); again (total, digested ++ (b ∷ bytes))

  -- `while True`. Every round but the last brings at least one byte, and the limit stops the loop:
  -- `max_download_bytes + 2` is fuel enough.
  unfoldable pub read_loop : ℕ → Progress → Exec (World R) Progress
  read_loop zero progress = raise (other_error "out of fuel")
  read_loop (suc fuel) progress = do
    chunk ← on_remote (R.read c.chunk_size)
    after_chunk (read_loop fuel) progress chunk

module _ (R : Remote) (hexdigest : Content → Str) (c : Client) (hard_links : Bool) where
  -- The body of the `try`.
  unfoldable pub transfer : RemoteFileInfo → FilePath → FilePath → Bool → Exec (World R) Progress
  transfer info destination temporary overwrite = do
    require_sftp R
    on_remote (R.open_file info.path)
    on_files (create temporary)
    (downloaded, digested) ← read_loop R c temporary (c.max_download_bytes + 2) (0, [])
    (if not (int_eq (pos downloaded) info.size)
        then raise (os_error "SFTP download size mismatch")
        else pure tt)
    final_info ← stat R c info.path
    (if not (same_identity final_info info)
        then raise (os_error "remote file metadata changed during SFTP download")
        else pure tt)
    on_files (commit_local_file hard_links temporary destination overwrite)
    pure (downloaded, digested)

  check_info : RemoteFileInfo → Exec (World R) (Unit {0})
  check_info info =
      if not info.is_regular_file || info.is_symlink
      then raise (value_error "SFTP download only supports regular non-symlink files")
      else if is_above c.max_download_bytes info.size
      then raise (transfer_limit "remote file size exceeds max_download_bytes")
      else pure tt

  check_destination : FilePath → Bool → Exec (World R) (Unit {0})
  check_destination destination overwrite w =
      if exists destination w.files && not overwrite
      then (err (file_exists "local destination already exists"), w)
      else (ok tt, w)

  unfoldable pub download : Str → FilePath → Str → Bool → Exec (World R) DownloadResult
  unfolding check_info check_destination
  download remote_path destination unique overwrite = do
    info ← stat R c remote_path
    check_info info
    check_destination destination overwrite
    (downloaded, digested) ←
        try_reraise (transfer info destination (part_path destination unique) overwrite)
          (on_files (unlink (part_path destination unique)))
    pure (record {
      remote_path = info.path;
      local_path = file_path_text destination;
      size = downloaded;
      sha256 = hexdigest digested;
    })

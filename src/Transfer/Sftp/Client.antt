-- ===== src/Transfer/Sftp/Client.antt =====
-- The methods of `SftpReadOnlyClient` but `download`: the session, `list_files`, `stat`, `exists`.
pub mod LocalFiles
pub mod Listing
use device_cli_tool.Base.{
  ℕ, ℤ, pos, ◌/◌, ◌%◌, Bool, true, false, not, ◌&&◌, ◌||◌, Option, none, some, List, [], ◌∷◌, ◌++◌,
  ◌==◌, ltb, if◌then◌else◌, is_empty, Error, Result, ok, err, runtime_error, file_not_found,
}
use device_cli_tool.Base.Exec.{
  Exec, pure, raise, lift, gets, modify, ◌>>=◌, ◌>>◌, try_finally, try_reraise,
}
use device_cli_tool.Text.{Str, str_leb}
use device_cli_tool.Transfer.Models.{RemoteFileInfo}
use device_cli_tool.Transfer.Paths.{resolve_remote_path}
use device_cli_tool.Transfer.Sftp.Options.{Client}
use device_cli_tool.Transfer.Sftp.Remote.{Attributes, Remote, World, on_remote}

abbrev or_zero : Option ℕ → ℕ
or_zero none = 0
or_zero (some n) = n

abbrev seconds : Option ℕ → Option ℤ
seconds none = none
seconds (some n) = some (pos n)

-- The type bits of a mode: `S_IFMT` is 0o170000.
abbrev type_bits : ℕ → ℕ
type_bits mode = mode / 4096 % 16

-- `_to_file_info`
unfoldable pub to_file_info : Str → Attributes → RemoteFileInfo
to_file_info path a =
    let kind = type_bits (or_zero a.st_mode) in
    record {
      path = path;
      size = pos (or_zero a.st_size);
      modified_time = seconds a.st_mtime;
      is_directory = kind == 4;
      is_regular_file = kind == 8;
      is_symlink = kind == 10;
    }

-- `posixpath.join(directory, name)`
abbrev pub ends_with_slash : Str → Bool
ends_with_slash [] = false
ends_with_slash (c ∷ []) = c == b'/'
ends_with_slash (c ∷ d ∷ s) = ends_with_slash (d ∷ s)

abbrev starts_with_slash : Str → Bool
starts_with_slash [] = false
starts_with_slash (c ∷ s) = c == b'/'

unfoldable pub posix_join : Str → Str → Str
posix_join directory name =
    if starts_with_slash name
    then name
    else if is_empty directory || ends_with_slash directory
    then directory ++ name
    else directory ++ (b'/' ∷ name)

abbrev insert_by_path : RemoteFileInfo → List RemoteFileInfo → List RemoteFileInfo
insert_by_path i [] = i ∷ []
insert_by_path i (j ∷ items) =
    let rest = insert_by_path i items in if str_leb i.path j.path then i ∷ j ∷ items else j ∷ rest

-- `sorted(results, key=lambda item: item.path)`: stable, from the right.
unfoldable pub sort_by_path : List RemoteFileInfo → List RemoteFileInfo
sort_by_path [] = []
sort_by_path (i ∷ items) = insert_by_path i (sort_by_path items)

module _ (R : Remote) where
  set_connected : Bool → Exec (World R) (Unit {0})
  set_connected b = modify (λ w. record w { connected = b })

  open_new : Exec (World R) (Unit {0})
  unfolding set_connected
  open_new = do
    on_remote R.configure_host_keys
    try_reraise (on_remote R.open_session) (on_remote R.close_client)
    set_connected true

  unfoldable pub connect : Exec (World R) (Unit {0})
  unfolding open_new
  connect w = if w.connected then (ok tt, w) else open_new w

  -- `_sftp` and `_client` are set together, and both are forgotten whatever `close` raises.
  close_open : Exec (World R) (Unit {0})
  unfolding set_connected
  close_open =
      try_finally (on_remote R.close_sftp) (do set_connected false; on_remote R.close_client)

  unfoldable pub close : Exec (World R) (Unit {0})
  unfolding close_open
  close w = if w.connected then close_open w else (ok tt, w)

  unfoldable pub require_sftp : Exec (World R) (Unit {0})
  require_sftp = do
    connect
    is_open ← gets (λ (w : World R). w.connected)
    if is_open then pure tt else raise (runtime_error "SFTP session is not available")

-- One more entry of the comprehension: the first error of the list is raised.
abbrev pub add_entry :
    Attributes → Result Str → Result (List RemoteFileInfo) → Result (List RemoteFileInfo)
add_entry a (err e) rest = err e
add_entry a (ok path) (err e) = err e
add_entry a (ok path) (ok items) = ok (to_file_info path a ∷ items)

module _ (R : Remote) (c : Client) where
  unfoldable pub resolve : Str → Result Str
  resolve remote_path = resolve_remote_path c.remote_root remote_path

  unfoldable pub stat : Str → Exec (World R) RemoteFileInfo
  stat remote_path = do
    resolved ← lift (resolve remote_path)
    require_sftp R
    attributes ← on_remote (R.lstat resolved)
    pure (to_file_info resolved attributes)

  -- The list comprehension of `list_files`.
  unfoldable pub listed : Str → List (Str × Attributes) → Result (List RemoteFileInfo)
  listed directory [] = ok []
  listed directory ((name, a) ∷ entries) =
      add_entry a (resolve (posix_join directory name)) (listed directory entries)

  unfoldable pub list_files : Str → Exec (World R) (List RemoteFileInfo)
  list_files remote_path = do
    directory ← lift (resolve remote_path)
    require_sftp R
    entries ← on_remote (R.listdir_attr directory)
    results ← lift (listed directory entries)
    pure (sort_by_path results)

  abbrev not_found_is_false : Result RemoteFileInfo → Result Bool
  not_found_is_false (ok info) = ok true
  not_found_is_false (err (file_not_found m)) = ok false
  not_found_is_false (err e) = err e

  -- ENOENT is the error `file_not_found`.
  unfoldable pub file_is_there : Str → Exec (World R) Bool
  file_is_there remote_path w = let (r, w') = stat remote_path w in (not_found_is_false r, w')

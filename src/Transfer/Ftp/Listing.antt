-- ===== src/Transfer/Ftp/Listing.antt =====
-- `FtpReadOnlyClient.list_files` and `_legacy_list_files`.
pub mod Items
pub mod Listed
use device_cli_tool.Base.{
  Bool, true, false, not, ◌||◌, none, some, List, [], ◌∷◌, ◌++◌, ◌==◌, if◌then◌else◌, Error, Result,
  ok, err, attribute_error, ftp_capability,
}
use device_cli_tool.Base.Exec.{Exec, pure, raise, lift, ◌>>=◌, ◌>>◌, try_except}
use device_cli_tool.Text.{Str, codes, str_eq, str_mem, drop_while_end}
use device_cli_tool.Transfer.Models.{RemoteFileInfo}
use device_cli_tool.Transfer.Sftp.Client.{sort_by_path}
use device_cli_tool.Transfer.Ftp.Options.{FtpClient, is_unix}
use device_cli_tool.Transfer.Ftp.Server.{Facts, Ftplib, World, on_server, is_unsupported_command}
use device_cli_tool.Transfer.Ftp.Facts.{file_info_from_facts}
use device_cli_tool.Transfer.Ftp.UnixList.{Entry, parse_unix_list_line}
use device_cli_tool.Transfer.Ftp.Session.{resolve, require_ftp}

-- `_join_remote`
unfoldable pub join_remote : Str → Str → Str
join_remote directory name =
    if str_eq directory (codes "/")
    then b'/' ∷ name
    else drop_while_end (λ c. c == b'/') directory ++ (b'/' ∷ name)

-- `name in {".", ".."}`
abbrev pub is_dots : Str → Bool
is_dots name = str_mem name (codes "." ∷ codes ".." ∷ [])

abbrev pub to_info : Str → Entry → RemoteFileInfo
to_info path entry = record {
  path = path;
  size = entry.size;
  modified_time = none;
  is_directory = entry.is_directory;
  is_regular_file = entry.is_regular_file;
  is_symlink = entry.is_symlink;
}

abbrev is_attribute_error : Error → Bool
is_attribute_error (attribute_error m) = true
is_attribute_error _ = false

-- What the requests of `list_files` end in: the entries of MLSD, or the list of the legacy path.
pub data Listing : Type 0 where
  structured : List (Str × Facts) → Listing
  legacy : List RemoteFileInfo → Listing

-- One more element: the first error is raised.
abbrev pub add_item :
    Result RemoteFileInfo → Result (List RemoteFileInfo) → Result (List RemoteFileInfo)
add_item (err e) rest = err e
add_item (ok i) (err e) = err e
add_item (ok i) (ok items) = ok (i ∷ items)

module _ (c : FtpClient) where
  -- One entry of MLSD, and one of LIST: its path, or why there is none.
  abbrev pub mlsd_item : Str → Facts → Result Str → Result RemoteFileInfo
  mlsd_item name facts (err e) = err e
  mlsd_item name facts (ok path) = file_info_from_facts path facts

  abbrev pub list_item : Entry → Result Str → Result RemoteFileInfo
  list_item entry (err e) = err e
  list_item entry (ok path) = ok (to_info path entry)

  -- The list comprehension of `list_files`.
  unfoldable pub mlsd_items : Str → List (Str × Facts) → Result (List RemoteFileInfo)
  mlsd_items directory [] = ok []
  mlsd_items directory ((name, facts) ∷ entries) =
      let rest = mlsd_items directory entries in
      if is_dots name
      then rest
      else add_item (mlsd_item name facts (resolve c (join_remote directory name))) rest

  -- One line of the loop of `_legacy_list_files`.
  abbrev pub add_line :
      Str → Result Entry → Result (List RemoteFileInfo) → Result (List RemoteFileInfo)
  add_line directory (err e) rest = err e
  add_line directory (ok entry) rest =
      if is_dots entry.name
      then rest
      else add_item (list_item entry (resolve c (join_remote directory entry.name))) rest

  unfoldable pub list_items : Str → List Str → Result (List RemoteFileInfo)
  list_items directory [] = ok []
  list_items directory (line ∷ lines) =
      add_line directory (parse_unix_list_line line) (list_items directory lines)

module _ (F : Ftplib) where
  abbrev pub set_listing_method : Str → Exec (World F) (Unit {0})
  set_listing_method name w = (ok tt, record w { last_listing_method = some name })

  -- `_legacy_list_files`
  unfoldable pub legacy_list_files : FtpClient → Str → Exec (World F) (List RemoteFileInfo)
  legacy_list_files c directory =
      if not c.allow_legacy_listing || not (is_unix c.legacy_list_format)
      then raise (
          ftp_capability
            "FTP server must support MLSD unless strict legacy listing is explicitly enabled")
      else do
        require_ftp F c
        lines ← on_server (F.retrlines (codes "LIST " ++ directory))
        results ← lift (list_items c directory lines)
        set_listing_method (codes "legacy_unix")
        pure (sort_by_path results)

  -- MLSD, with the facts that are asked for or without.
  request_entries : Str → Bool → Exec (World F) Listing
  request_entries directory facts = do
    entries ← on_server (F.mlsd directory facts)
    pure (structured entries)

  request_lines : FtpClient → Str → Exec (World F) Listing
  request_lines c directory = do results ← legacy_list_files c directory; pure (legacy results)

  -- The `except` clauses of the second request, and of the first.
  second_refused : FtpClient → Str → Error → Exec (World F) Listing
  second_refused c directory e =
      if is_attribute_error e || is_unsupported_command e
      then request_lines c directory
      else raise e

  first_refused : FtpClient → Str → Error → Exec (World F) Listing
  first_refused c directory e =
      if is_attribute_error e
      then request_lines c directory
      else if is_unsupported_command e
      then try_except (request_entries directory false) (second_refused c directory)
      else raise e

  -- What comes behind the requests.
  finish_listing : FtpClient → Str → Listing → Exec (World F) (List RemoteFileInfo)
  finish_listing c directory (legacy results) = pure results
  finish_listing c directory (structured entries) = do
    set_listing_method (codes "mlsd")
    results ← lift (mlsd_items c directory entries)
    pure (sort_by_path results)

  unfoldable pub list_files : FtpClient → Str → Exec (World F) (List RemoteFileInfo)
  unfolding request_entries request_lines second_refused first_refused finish_listing
  list_files c remote_path = do
    directory ← lift (resolve c remote_path)
    require_ftp F c
    listing ← try_except (request_entries directory true) (first_refused c directory)
    finish_listing c directory listing

-- ===== src/Transfer/Ftp/Stat.antt =====
-- `FtpReadOnlyClient.stat`, `_legacy_stat` and `exists`.
pub mod MissingCa
use device_cli_tool.Base.{
  ℤ, any, Bool, true, false, not, ◌||◌, Option, none, some, List, [], ◌∷◌, ◌++◌, if◌then◌else◌,
  Error, Result, ok, err, file_not_found, ftp_capability, ftp_error_perm, other_error,
}
use device_cli_tool.Base.Exec.{Exec, pure, raise, lift, ◌>>=◌, ◌>>◌, try_except}
use device_cli_tool.Text.{Str, codes, str_eq, is_space, has_char, rstrip}
use device_cli_tool.Transfer.Models.{RemoteFileInfo}
use device_cli_tool.Transfer.Ftp.Options.{FtpClient, is_unix}
use device_cli_tool.Transfer.Ftp.Server.{
  Ftplib, World, on_server, is_not_found, is_unsupported_command,
}
use device_cli_tool.Transfer.Ftp.Calendar.{parse_modify_time}
use device_cli_tool.Transfer.Ftp.Facts.{file_info_from_facts, parse_mlst_response}
use device_cli_tool.Transfer.Ftp.UnixList.{Entry, parse_unix_list_line}
use device_cli_tool.Transfer.Ftp.Session.{resolve, require_ftp}
use device_cli_tool.Transfer.Ftp.Listing.{to_info}

-- `s.rsplit("/", 1)[-1]`
unfoldable pub after_last_slash : Str → Str
after_last_slash [] = []
after_last_slash (c ∷ s) =
    let rest = after_last_slash s in if has_char b'/' (c ∷ s) then rest else c ∷ s

-- `s.split()[-1]`
abbrev last_run : Str → Str
last_run [] = []
last_run (c ∷ s) = let rest = last_run s in if any is_space (c ∷ s) then rest else c ∷ s

abbrev pub not_empty : Str → Result Str
not_empty [] = err (other_error "list index out of range")
not_empty (c ∷ s) = ok (c ∷ s)

unfoldable pub last_word : Str → Result Str
last_word s = not_empty (last_run (rstrip s))

module _ (F : Ftplib) where
  abbrev pub set_metadata_method : Str → Exec (World F) (Unit {0})
  set_metadata_method name w = (ok tt, record w { last_metadata_method = some name })

  -- `MDTM`: a refusal is passed over.
  unfoldable pub modified_time_or_none : Error → Exec (World F) (Option ℤ)
  modified_time_or_none (ftp_error_perm m) = pure none
  modified_time_or_none e = raise e

  unfoldable pub legacy_modified_time : FtpClient → Str → Exec (World F) (Option ℤ)
  unfolding modified_time_or_none
  legacy_modified_time c resolved =
      try_except
        (do
          require_ftp F c
          response ← on_server (F.sendcmd (codes "MDTM " ++ resolved))
          word ← lift (last_word response)
          lift (parse_modify_time (some word)))
        modified_time_or_none

  unfoldable pub not_found_or_same : Error → Exec (World F) (List Str)
  not_found_or_same e = if is_not_found e then raise (file_not_found "not found") else raise e

  -- The name is the last one of the path.
  unfoldable pub legacy_info : FtpClient → Str → Entry → Exec (World F) RemoteFileInfo
  legacy_info c resolved entry =
      if not (str_eq entry.name (after_last_slash resolved))
      then raise (ftp_capability "legacy UNIX LIST stat returned a different entry name")
      else do
        modified_time ←
            (if entry.is_regular_file then legacy_modified_time c resolved else pure none)
        set_metadata_method (codes "legacy_unix")
        pure (record (to_info resolved entry) { modified_time = modified_time })

  one_line : List Str → Result Str
  one_line (line ∷ []) = ok line
  one_line _ = err (ftp_capability "legacy UNIX LIST stat must return exactly one structured entry")

  -- `_legacy_stat`
  unfoldable pub legacy_stat : FtpClient → Str → Exec (World F) RemoteFileInfo
  unfolding not_found_or_same legacy_info one_line
  legacy_stat c resolved =
      if not c.allow_legacy_listing || not (is_unix c.legacy_list_format)
      then raise (
          ftp_capability
            "FTP server must support MLST unless strict legacy listing is explicitly enabled")
      else do
        lines ←
            try_except (do require_ftp F c; on_server (F.retrlines (codes "LIST " ++ resolved)))
              not_found_or_same
        line ← lift (one_line lines)
        entry ← lift (parse_unix_list_line line)
        legacy_info c resolved entry

  unfoldable pub structured_stat : Str → Exec (World F) RemoteFileInfo
  structured_stat resolved = do
    response ← on_server (F.sendcmd (codes "MLST " ++ resolved))
    facts ← lift (parse_mlst_response response)
    info ← lift (file_info_from_facts resolved facts)
    set_metadata_method (codes "mlst")
    pure info

  unfoldable pub stat_refused : FtpClient → Str → Error → Exec (World F) RemoteFileInfo
  stat_refused c resolved e =
      if is_unsupported_command e
      then legacy_stat c resolved
      else if is_not_found e
      then raise (file_not_found "not found")
      else raise e

  unfoldable pub stat : FtpClient → Str → Exec (World F) RemoteFileInfo
  unfolding structured_stat stat_refused
  stat c remote_path = do
    resolved ← lift (resolve c remote_path)
    require_ftp F c
    try_except (structured_stat resolved) (stat_refused c resolved)

  abbrev pub not_found_is_false : Result RemoteFileInfo → Result Bool
  not_found_is_false (ok info) = ok true
  not_found_is_false (err (file_not_found m)) = ok false
  not_found_is_false (err e) = err e

  -- `exists`
  unfoldable pub file_is_there : FtpClient → Str → Exec (World F) Bool
  file_is_there c remote_path w = let (r, w') = stat c remote_path w in (not_found_is_false r, w')

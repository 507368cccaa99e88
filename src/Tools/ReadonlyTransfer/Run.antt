-- ===== src/Tools/ReadonlyTransfer/Run.antt =====
-- `run_transfer` and `_run_operation` of tools/cli_tool_readonly_transfer.py, and the payloads of
-- cli_tool/reporting/transfer.py. `digest` is the SHA-256 of a text in hexadecimal digits. The report
-- that is printed and written is left out.
pub mod Closed
use device_cli_tool.Base.{
  ℕ, Bool, true, false, Option, none, some, List, [], ◌∷◌, ◌++◌, length, take, map, if◌then◌else◌,
  Error, Result, ok, err, system_exit,
}
use device_cli_tool.Base.Exec.{Exec, pure, raise, lift, gets, ◌>>=◌, ◌>>◌, try_finally}
use device_cli_tool.Text.{Str, codes}
use device_cli_tool.Transfer.Models.{RemoteFileInfo, DownloadResult}
use device_cli_tool.Tools.ReadonlyTransfer.{
  Operation, list_files, stat, exists, download, Args, Auth, validate_args, resolve_auth,
  or_default,
}

-- The protocol class of cli_tool/transfer/base.py, with the session of a client, and the attributes that
-- the report reads.
pub record ReadOnlyFileTransfer (W : Type 0) : Type 0 where
  pub connect : Exec W (Unit {0})
  pub close : Exec W (Unit {0})
  pub listed : Str → Exec W (List RemoteFileInfo)
  pub info : Str → Exec W RemoteFileInfo
  pub is_there : Str → Exec W Bool
  pub downloaded : Str → Str → Bool → Exec W DownloadResult
  pub listing_method : W → Option Str
  pub metadata_method : W → Option Str

-- The dictionaries that `_run_operation` returns.
pub data Outcome : Type 0 where
  list_outcome : (count : ℕ) → (method : Option Str) → List RemoteFileInfo → Outcome
  stat_outcome : (method : Option Str) → RemoteFileInfo → Outcome
  exists_outcome : Bool → (method : Option Str) → Outcome
  download_outcome : (method : Option Str) → DownloadResult → Outcome

module _ (digest : Str → Str) where
  unfoldable pub identifier_reference : Str → Bool → Str
  identifier_reference value include_value =
      if include_value then value else codes "sha256:" ++ take 16 (digest value)

  unfoldable pub file_info_payload : Bool → RemoteFileInfo → RemoteFileInfo
  file_info_payload include_paths i = record i { path = identifier_reference i.path include_paths }

  unfoldable pub file_list_payload : Bool → List RemoteFileInfo → List RemoteFileInfo
  file_list_payload include_paths items = map (file_info_payload include_paths) items

  unfoldable pub download_payload : Bool → DownloadResult → DownloadResult
  download_payload include_paths r = record r {
    remote_path = identifier_reference r.remote_path include_paths;
    local_path = identifier_reference r.local_path include_paths;
  }

  module _ {W : Type 0} (client : ReadOnlyFileTransfer W) (a : Args) (include_paths : Bool) where
    abbrev pub operate : Operation → Exec W Outcome
    operate list_files = do
      items ← client.listed a.remote_path
      method ← gets client.listing_method
      pure (list_outcome (length items) method (file_list_payload include_paths items))
    operate stat = do
      i ← client.info a.remote_path
      method ← gets client.metadata_method
      pure (stat_outcome method (file_info_payload include_paths i))
    operate exists = do
      b ← client.is_there a.remote_path
      method ← gets client.metadata_method
      pure (exists_outcome b method)
    operate download = do
      r ← client.downloaded a.remote_path (or_default [] a.local_path) a.overwrite
      method ← gets client.metadata_method
      pure (download_outcome method (download_payload include_paths r))

    unfoldable pub run_operation : Exec W Outcome
    run_operation = operate a.operation

    -- `with _build_client(...) as client`
    unfoldable pub run_client : Exec W Outcome
    run_client = do client.connect; try_finally run_operation client.close

-- What the tool ends with: its exit code, and the outcome or the error that it reports.
pub record Report : Type 0 where
  pub exit_code : ℕ
  pub outcome : Option Outcome
  pub error : Option Error

-- `except Exception`, which lets a SystemExit through.
abbrev pub reported : {W : Type 0} → Result Outcome × W → Result Report × W
reported (ok o, w) = (ok (record { exit_code = 0; outcome = some o; error = none }), w)
reported (err (system_exit m), w) = (err (system_exit m), w)
reported (err e, w) = (ok (record { exit_code = 1; outcome = none; error = some e }), w)

module _ (digest : Str → Str) {W : Type 0} (environ : Str → Option Str)
    (build_client : Args → Auth → Result (ReadOnlyFileTransfer W)) (include_paths : Bool) where
  -- The body of the `try`.
  unfoldable pub attempt : Args → Auth → Exec W Outcome
  attempt a auth = do client ← lift (build_client a auth); run_client digest client a include_paths

  unfoldable pub guarded : Args → Auth → Exec W Report
  guarded a auth w = reported (attempt a auth w)

  unfoldable pub run_transfer : Args → Exec W Report
  run_transfer a = do lift (validate_args a); auth ← lift (resolve_auth environ a); guarded a auth

-- ===== src/Transfer/Ftp/Download/Step.antt =====
-- A download as a step of the specification.
use device_cli_tool.Base.{
  ℕ, Bool, true, false, not, ◌||◌, is_above, value_error, transfer_limit, ◌≡◌, refl, arith, none,
  Result, ok, err, Bool-cases, inl, inr,
}
use device_cli_tool.Base.Exec.{◌>>=◌, pure}
use device_cli_tool.Base.Exec.Keeps.{Triple-Keeps}
use device_cli_tool.Base.Exec.Triples.{
  Ends, Triple, Triple-assume, Triple-bind, Triple-check, Triple-try_reraise, Triple-unless,
}
use device_cli_tool.Text.{Str}
use device_cli_tool.Transfer.Models.{RemoteFileInfo, DownloadResult}
use device_cli_tool.Transfer.Local.{FilePath, Content, Files, part_path, file_path_text, exists}
use device_cli_tool.Transfer.Local.Outcome.{Same, IsReported, missing-was_free}
use device_cli_tool.Transfer.Local.Refinement.{DownloadStep, Ends→DownloadStep}
use device_cli_tool.Transfer.Ftp.Options.{FtpClient}
use device_cli_tool.Transfer.Ftp.Server.{Ftplib, World}
use device_cli_tool.Transfer.Ftp.LocalFiles.{OfFiles, Keeps-stat}
use device_cli_tool.Transfer.Ftp.Download.{check_info, check_destination, download}
use device_cli_tool.Transfer.Ftp.Download.Outcome.{
  CallsBack, IsCommitted, transfer_lem, unlink_lem, temporary, limit,
}

module _ (F : Ftplib) (calls : CallsBack F) (hexdigest : Content → Str) (c : FtpClient)
    (hard_links : Bool) (before : Files) (destination : FilePath) (unique : Str) (overwrite : Bool)
    (fresh : before (part_path destination unique) ≡ none) where
  Free : Type 0
  Free = overwrite ≡ false → before destination ≡ none

  check_destination_at :
      (overwrite : Bool) (w : World F)
      → Same before w.files
      → Ends
          (λ (_ : Unit {0}) w.
            Same before w.files × (overwrite ≡ false → before destination ≡ none))
          (OfFiles F (Same before))
          (check_destination F hexdigest c hard_links destination overwrite w)
  unfolding check_destination
  check_destination_at true w same = elim (Bool-cases (exists destination w.files)) [
    | inl there ↦ rw there (same, λ e. absurd (ground (arith, e)))
    | inr missing ↦ rw missing (same, λ e. absurd (ground (arith, e)))
  ]
  check_destination_at false w same = elim (Bool-cases (exists destination w.files)) [
    | inl there ↦ rw there same
    | inr missing ↦ rw missing (same, λ _. missing-was_free before destination w.files same missing)
  ]

  check_destination_lem :
      Triple
        (OfFiles F (Same before))
        (check_destination F hexdigest c hard_links destination overwrite)
        (λ _ w. Same before w.files × Free)
        (OfFiles F (Same before))
  unfolding Free
  check_destination_lem = record { at = check_destination_at overwrite }

  check_info_lem :
      (info : RemoteFileInfo)
      → Triple
          (OfFiles F (Same before))
          (check_info F hexdigest c hard_links info)
          (λ _. OfFiles F (Same before))
          (OfFiles F (Same before))
  unfolding check_info
  check_info_lem info =
      Triple-unless _ (not info.is_regular_file || info.is_symlink) (value_error _) _ _ (λ w h. h)
        (Triple-check _ (is_above c.max_download_bytes info.size) (transfer_limit _) (λ w h. h))

  Reported : DownloadResult → World F → Type 0
  Reported result w =
      IsReported before destination overwrite c.max_download_bytes hexdigest result w.files

  Committed : ℕ × Content → World F → Type 0
  Committed = IsCommitted F calls hexdigest c hard_links before destination unique overwrite fresh

  report_lem :
      (info : RemoteFileInfo) (p : ℕ × Content)
      → Free
      → Triple
          (Committed p)
          (pure (record {
            remote_path = info.path;
            local_path = file_path_text destination;
            size = p.0;
            sha256 = hexdigest p.1;
          }))
          Reported
          (OfFiles F (Same before))
  unfolding ◌>>=◌ Committed IsCommitted Reported Free limit
  report_lem info (size, digested) free = record {
    at = λ w (h, e). record {
      content = digested;
      local = h;
      size_is = e;
      sha256_is = refl;
      local_path_is = refl;
      was_free = free;
    };
  }

  download_lem :
      (remote_path : Str)
      → Triple
          (OfFiles F (Same before))
          (download F hexdigest c hard_links remote_path destination unique overwrite)
          Reported
          (OfFiles F (Same before))
  unfolding download temporary Committed
  download_lem remote_path =
      Triple-bind _ _ (Triple-Keeps _ (λ w h. h) (Keeps-stat F (Same before) c remote_path)) λ info.
        Triple-bind _ _ (check_info_lem info) λ _. Triple-bind _ _ check_destination_lem λ _.
          Triple-assume _ _ _ Free λ free.
            Triple-bind _ _
              (Triple-try_reraise _ _
                (transfer_lem F calls hexdigest c hard_links before destination unique overwrite
                  fresh info)
                (unlink_lem F calls hexdigest c hard_links before destination unique overwrite
                  fresh))
              λ p. report_lem info p free

-- Whatever an FTP server answers, a download does to the local files one step of the specification
-- DownloadStep: it raises and they are as they were before, or it returns, and the one change is that
-- the destination holds the content that the result reports by its length, its digest and the
-- destination's path; the content keeps to `max_download_bytes`, and without `overwrite` the
-- destination was free. Conditions: `retrbinary` only works through its callback and stops at its
-- exception, and no file has the name of the temporary file.
pub download-DownloadStep :
    (F : Ftplib) (calls : CallsBack F) (hexdigest : Content → Str) (c : FtpClient)
    (hard_links : Bool) (remote_path : Str) (destination : FilePath) (unique : Str)
    (overwrite : Bool) (w : World F)
    → w.files (part_path destination unique) ≡ none
    → let (r, w') = download F hexdigest c hard_links remote_path destination unique overwrite w in
      DownloadStep w.files destination overwrite c.max_download_bytes hexdigest r w'.files
unfolding Reported
download-DownloadStep F calls hexdigest c hard_links remote_path destination unique overwrite w
      fresh =
    let (r, w') = download F hexdigest c hard_links remote_path destination unique overwrite w in
    ended r w' (
      (download_lem F calls hexdigest c hard_links w.files destination unique overwrite fresh
          remote_path).at
        w (λ q. refl))
  where
    ended :
        (r : Result DownloadResult) (w' : World F)
        → Ends
            (λ result w'.
              IsReported w.files destination overwrite c.max_download_bytes hexdigest result
                w'.files)
            (λ w'. Same w.files w'.files)
            (r, w')
        → DownloadStep w.files destination overwrite c.max_download_bytes hexdigest r w'.files
    ended (ok result) w' h =
        Ends→DownloadStep w.files destination overwrite c.max_download_bytes hexdigest (ok result)
          w'.files h
    ended (err e) w' h =
        Ends→DownloadStep w.files destination overwrite c.max_download_bytes hexdigest (err e)
          w'.files h

-- ===== src/Transfer/Sftp/Download/Outcome.antt =====
-- What a download leaves behind on the local file system, however the server behaves.
use device_cli_tool.Base.{
  ℕ, is_above, Bool, true, false, not, ◌||◌, value_error, transfer_limit, ◌≡◌, refl, sym, ap, ◌∙◌,
  arith, [], length, none, Result, ok, err, Bool-cases, inl, inr,
}
use device_cli_tool.Base.Exec.{Exec, ◌>>=◌, pure}
use device_cli_tool.Base.Exec.Keeps.{Keeps, Keeps-at, Keeps-of, Triple-Keeps}
use device_cli_tool.Base.Exec.Triples.{
  Ends, Triple, Triple-assume, Triple-bind, Triple-check, Triple-pure, Triple-try_reraise,
  Triple-unless,
}
use device_cli_tool.Text.{Str}
use device_cli_tool.Transfer.Models.{RemoteFileInfo, DownloadResult}
use device_cli_tool.Transfer.Local.{
  FilePath, Content, Files, part_path, file_path_text, create, exists, unlink, commit_local_file,
}
use device_cli_tool.Transfer.Sftp.Options.{Client}
use device_cli_tool.Transfer.Sftp.Remote.{Remote, World, on_files}
use device_cli_tool.Transfer.Sftp.Client.LocalFiles.{
  OfFiles, Ends-on_files, Keeps-on_remote, Keeps-require_sftp, Keeps-stat,
}
use device_cli_tool.Transfer.Sftp.Download.{
  Progress, read_loop, transfer, check_info, check_destination, download,
}
use device_cli_tool.Transfer.Local.Outcome.{
  Same, Aside, IsWritten, IsDownloaded, IsReported, create-IsWritten, commit-IsDownloaded,
  unlink-Same, missing-was_free,
}
use device_cli_tool.Transfer.Sftp.Download.Loop.{read_loop_lem, Copied}

module _ (R : Remote) (hexdigest : Content → Str) (c : Client) (hard_links : Bool) (before : Files)
    (destination : FilePath) (unique : Str) (overwrite : Bool)
    (fresh : before (part_path destination unique) ≡ none) where
  temporary : FilePath
  temporary = part_path destination unique

  limit : ℕ
  limit = c.max_download_bytes

  IsCopied : Progress → World R → Type 0
  IsCopied (size, digested) w =
      IsWritten before temporary limit digested w.files × (size ≡ length digested)

  IsCommitted : Progress → World R → Type 0
  IsCommitted (size, digested) w =
      IsDownloaded before destination limit digested w.files × (size ≡ length digested)

  AsideWorld : World R → Type 0
  AsideWorld w = Aside before temporary w.files

  create_lem :
      Triple
        (OfFiles R (Same before))
        (on_files (create temporary))
        (λ _. OfFiles R (IsWritten before temporary limit []))
        AsideWorld
  unfolding temporary AsideWorld limit
  create_lem = record {
    at = λ w same.
        Ends-on_files (λ _. IsWritten before (part_path destination unique) c.max_download_bytes [])
          (Aside before (part_path destination unique)) (create (part_path destination unique)) w
          (create-IsWritten before destination unique c.max_download_bytes fresh w.files same);
  }

  loop_end :
      (r : Result Progress) (w : World R)
      → Copied R c temporary before (r, w)
      → Ends IsCopied AsideWorld (r, w)
  unfolding IsCopied AsideWorld limit
  loop_end (ok (size, digested)) w (content, h, ed) =
      let (e, d) = ed in (rw d h, e ∙ ap (λ l. length l) (sym d))
  loop_end (err e) w (content, h, u) = h.others

  loop_lem :
      (fuel : ℕ)
      → Triple
          (OfFiles R (IsWritten before temporary limit []))
          (read_loop R c temporary fuel (0, []))
          IsCopied
          AsideWorld
  unfolding limit
  loop_lem fuel = record {
    at = λ w h.
        let (r, w') = read_loop R c temporary fuel (0, []) w in
        loop_end r w' (read_loop_lem R c temporary before fuel [] w h);
  }

  commit_at :
      (p : Progress) (w : World R)
      → IsCopied p w
      → Ends
          (λ (_ : Unit {0}). IsCommitted p)
          AsideWorld
          (on_files (commit_local_file hard_links temporary destination overwrite) w)
  unfolding IsCopied IsCommitted AsideWorld limit temporary
  commit_at (size, digested) w (h, e) =
      Ends-on_files
        (λ _ files.
          IsDownloaded before destination c.max_download_bytes digested files
          × (size ≡ length digested))
        (Aside before (part_path destination unique))
        (commit_local_file hard_links (part_path destination unique) destination overwrite) w
        (commit-IsDownloaded before destination unique c.max_download_bytes fresh hard_links
          overwrite size digested w.files h e)

  IsCopied→Aside : (p : Progress) (w : World R) → IsCopied p w → AsideWorld w
  unfolding IsCopied AsideWorld
  IsCopied→Aside (size, digested) w (h, e) = h.others

  Same→Aside : (w : World R) → Same before w.files → AsideWorld w
  unfolding AsideWorld
  Same→Aside w same q ne = same q

  Keeps-IsCopied :
      {A : Type 0} (p : Progress) (m : Exec (World R) A)
      → ((F : Files → Type 0) → Keeps (OfFiles R F) m)
      → Keeps (IsCopied p) m
  unfolding IsCopied
  Keeps-IsCopied (size, digested) m km =
      Keeps-of m λ w (h, e). (Keeps-at m (km (IsWritten before temporary limit digested)) w h, e)

  transfer_lem :
      (info : RemoteFileInfo)
      → Triple
          (OfFiles R (Same before))
          (transfer R hexdigest c hard_links info destination temporary overwrite)
          IsCommitted
          AsideWorld
  unfolding transfer
  transfer_lem info =
      Triple-bind _ _ (Triple-Keeps _ Same→Aside (Keeps-require_sftp R (Same before))) λ _.
        Triple-bind _ _ (Triple-Keeps _ Same→Aside (Keeps-on_remote R (Same before) _)) λ _.
          Triple-bind _ _ create_lem λ _. Triple-bind _ _ (loop_lem _) λ p.
            Triple-bind _ _ (Triple-check (IsCopied p) _ _ (IsCopied→Aside p)) λ _.
              Triple-bind _ _
                (Triple-Keeps _ (IsCopied→Aside p)
                  (Keeps-IsCopied p _ λ F. Keeps-stat R F c info.path))
                λ final_info.
                  Triple-bind _ _ (Triple-check (IsCopied p) _ _ (IsCopied→Aside p)) λ _.
                    Triple-bind _ _ (record { at = commit_at p }) λ _. Triple-pure p IsCommitted

  unlink_lem :
      (w : World R)
      → AsideWorld w
      → Same before (on_files {R = R} (unlink (part_path destination unique)) w).1.files
  unfolding on_files AsideWorld temporary
  unlink_lem w aside = unlink-Same before destination unique limit fresh w.files aside

  Free : Type 0
  Free = overwrite ≡ false → before destination ≡ none

  check_destination_at :
      (overwrite : Bool) (w : World R)
      → Same before w.files
      → Ends
          (λ (_ : Unit {0}) w.
            Same before w.files × (overwrite ≡ false → before destination ≡ none))
          (OfFiles R (Same before))
          (check_destination R hexdigest c hard_links destination overwrite w)
  unfolding check_destination
  check_destination_at true w same = elim (Bool-cases (exists destination w.files)) [
    | inl there ↦ rw there (same, λ e. absurd (ground (arith, e)))
    | inr missing ↦ rw missing (same, λ e. absurd (ground (arith, e)))
  ]
  check_destination_at false w same = elim (Bool-cases (exists destination w.files)) [
    | inl there ↦ rw there same
    | inr missing ↦ rw missing (same, λ _. missing-was_free before destination w.files same missing)
  ]

  check_destination_lem :
      Triple
        (OfFiles R (Same before))
        (check_destination R hexdigest c hard_links destination overwrite)
        (λ _ w. Same before w.files × Free)
        (OfFiles R (Same before))
  unfolding Free
  check_destination_lem = record { at = check_destination_at overwrite }

  Reported : DownloadResult → World R → Type 0
  Reported result w = IsReported before destination overwrite limit hexdigest result w.files

  check_info_lem :
      (info : RemoteFileInfo)
      → Triple
          (OfFiles R (Same before))
          (check_info R hexdigest c hard_links info)
          (λ _. OfFiles R (Same before))
          (OfFiles R (Same before))
  unfolding check_info
  check_info_lem info =
      Triple-unless _ (not info.is_regular_file || info.is_symlink) (value_error _) _ _ (λ w h. h)
        (Triple-check _ (is_above c.max_download_bytes info.size) (transfer_limit _) (λ w h. h))

  report_lem :
      (info : RemoteFileInfo) (p : Progress)
      → Free
      → Triple
          (IsCommitted p)
          (pure (record {
            remote_path = info.path;
            local_path = file_path_text destination;
            size = p.0;
            sha256 = hexdigest p.1;
          }))
          Reported
          (OfFiles R (Same before))
  unfolding ◌>>=◌ IsCommitted Reported Free
  report_lem info (size, digested) free = record {
    at = λ w (h, e). record {
      content = digested;
      local = h;
      size_is = e;
      sha256_is = refl;
      local_path_is = refl;
      was_free = free;
    };
  }

  download_lem :
      (remote_path : Str)
      → Triple
          (OfFiles R (Same before))
          (download R hexdigest c hard_links remote_path destination unique overwrite)
          Reported
          (OfFiles R (Same before))
  unfolding download temporary
  download_lem remote_path =
      Triple-bind _ _ (Triple-Keeps _ (λ w h. h) (Keeps-stat R (Same before) c remote_path)) λ info.
        Triple-bind _ _ (check_info_lem info) λ _. Triple-bind _ _ check_destination_lem λ _.
          Triple-assume _ _ _ Free λ free.
            Triple-bind _ _ (Triple-try_reraise _ _ (transfer_lem info) unlink_lem)
              λ p. report_lem info p free

-- After a download, whatever the server answers, one of two things holds, provided that no file has
-- the name of the temporary file before it. Either it raised, and every local file is what it was.
-- Or it returned, and the destination holds at most `max_download_bytes` bytes, the result has their
-- number, the digest of exactly these bytes and the destination's path, every other local file is what
-- it was, no temporary file among them, and without `overwrite` the destination did not exist.
pub download-outcome :
    (R : Remote) (hexdigest : Content → Str) (c : Client) (hard_links : Bool) (remote_path : Str)
    (destination : FilePath) (unique : Str) (overwrite : Bool) (w : World R)
    → w.files (part_path destination unique) ≡ none
    → Ends
        (λ result w'.
          IsReported w.files destination overwrite c.max_download_bytes hexdigest result w'.files)
        (λ w'. Same w.files w'.files)
        (download R hexdigest c hard_links remote_path destination unique overwrite w)
unfolding Reported limit
download-outcome R hexdigest c hard_links remote_path destination unique overwrite w fresh =
    (download_lem R hexdigest c hard_links w.files destination unique overwrite fresh
        remote_path).at
      w (λ q. refl)

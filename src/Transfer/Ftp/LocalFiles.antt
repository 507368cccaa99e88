-- ===== src/Transfer/Ftp/LocalFiles.antt =====
-- What the client does with the server leaves the local files alone.
use device_cli_tool.Base.{Bool, true, false, Error, Result, ok, err, if◌then◌else◌, ftp_error_perm}
use device_cli_tool.Base.Exec.{Exec}
use device_cli_tool.Base.Exec.Triples.{Ends}
use device_cli_tool.Base.Exec.Keeps.{
  Keeps, Keeps-at, Keeps-of, Keeps-bind, Keeps-try_except, Keeps-try_reraise, Keeps-gets,
  Keeps-lift, Keeps-pure, Keeps-raise, Keeps-require,
}
use device_cli_tool.Text.{Str}
use device_cli_tool.Transfer.Local.{Files}
use device_cli_tool.Transfer.Ftp.Options.{FtpClient}
use device_cli_tool.Transfer.Ftp.Server.{Ftplib, World, on_server, on_files}
use device_cli_tool.Transfer.Ftp.UnixList.{Entry}
use device_cli_tool.Transfer.Ftp.Session.{connect, open_new, open_session, require_ftp}
use device_cli_tool.Transfer.Ftp.Session.Calls as Calls
use device_cli_tool.Transfer.Ftp.Session.Calls.{Keeps-if}
use device_cli_tool.Transfer.Ftp.Stat.{
  stat, structured_stat, stat_refused, legacy_stat, legacy_info, legacy_modified_time,
  modified_time_or_none, not_found_or_same, set_metadata_method,
}

module _ (F : Ftplib) (P : Files → Type 0) where
  abbrev pub OfFiles : World F → Type 0
  OfFiles w = P w.files

  pub Keeps-on_server : {A : Type 0} (m : Exec F.State A) → Keeps OfFiles (on_server m)
  Keeps-on_server m = Calls.Keeps-on_server F OfFiles (λ w s h. h) m

  open_session-Keeps : (c : FtpClient) → Keeps OfFiles (open_session F c)
  unfolding open_session
  open_session-Keeps c = Keeps-bind _ _ (Keeps-on_server _) λ _.
      Keeps-bind _ _ (Keeps-on_server _) λ _.
        Keeps-bind _ _ (Keeps-if _ _ _ (Keeps-on_server _) (Keeps-pure _))
          λ _. Keeps-bind _ _ (Keeps-on_server _) λ _. Keeps-of _ (λ w h. h)

  open_new-Keeps : (c : FtpClient) → Keeps OfFiles (open_new F c)
  unfolding open_new
  open_new-Keeps c =
      Keeps-bind _ _ (Calls.Keeps-new_client F OfFiles (λ w s h. h) c)
        λ _. Keeps-try_reraise _ _ (open_session-Keeps c) (Keeps-on_server _)

  connect_at :
      (c : FtpClient) (b : Bool) (w : World F)
      → P w.files
      → P (if b then (ok tt, w) else open_new F c w).1.files
  connect_at c true w h = h
  connect_at c false w h = Keeps-at (open_new F c) (open_new-Keeps c) w h

  pub Keeps-require_ftp : (c : FtpClient) → Keeps OfFiles (require_ftp F c)
  unfolding require_ftp connect
  Keeps-require_ftp c =
      Keeps-bind _ _ (Keeps-of (connect F c) λ w h. connect_at c w.connected w h)
        λ _. Keeps-bind _ _ (Keeps-gets _) λ is_open. Keeps-require is_open _

  modified_time_or_none-Keeps : (e : Error) → Keeps OfFiles (modified_time_or_none F e)
  unfolding modified_time_or_none
  modified_time_or_none-Keeps (ftp_error_perm m) = Keeps-pure _
  modified_time_or_none-Keeps _ = Keeps-raise _

  modified_time-Keeps : (c : FtpClient) (path : Str) → Keeps OfFiles (legacy_modified_time F c path)
  unfolding legacy_modified_time
  modified_time-Keeps c path =
      Keeps-try_except _ _
        (Keeps-bind _ _ (Keeps-require_ftp c) λ _.
          Keeps-bind _ _ (Keeps-on_server _)
            λ _. Keeps-bind _ _ (Keeps-lift _) λ word. Keeps-lift _)
        modified_time_or_none-Keeps

  set_method-Keeps : (name : Str) → Keeps OfFiles (set_metadata_method F name)
  set_method-Keeps name = Keeps-of _ (λ w h. h)

  legacy_info-Keeps :
      (c : FtpClient) (path : Str) (entry : Entry) → Keeps OfFiles (legacy_info F c path entry)
  unfolding legacy_info
  legacy_info-Keeps c path entry = Keeps-if _ _ _ (Keeps-raise _) (
      Keeps-bind _ _ (Keeps-if _ _ _ (modified_time-Keeps c path) (Keeps-pure _))
        λ t. Keeps-bind _ _ (set_method-Keeps _) λ _. Keeps-pure _)

  legacy_stat-Keeps : (c : FtpClient) (path : Str) → Keeps OfFiles (legacy_stat F c path)
  unfolding legacy_stat not_found_or_same
  legacy_stat-Keeps c path = Keeps-if _ _ _ (Keeps-raise _) (
      Keeps-bind _ _
        (Keeps-try_except _ _ (Keeps-bind _ _ (Keeps-require_ftp c) λ _. Keeps-on_server _)
          (λ e. Keeps-if _ _ _ (Keeps-raise _) (Keeps-raise _)))
        λ lines.
          Keeps-bind _ _ (Keeps-lift _)
            λ line. Keeps-bind _ _ (Keeps-lift _) λ entry. legacy_info-Keeps c path entry)

  pub Keeps-stat : (c : FtpClient) (path : Str) → Keeps OfFiles (stat F c path)
  unfolding stat structured_stat stat_refused
  Keeps-stat c path = Keeps-bind _ _ (Keeps-lift _) λ resolved.
      Keeps-bind _ _ (Keeps-require_ftp c) λ _.
        Keeps-try_except _ _
          (Keeps-bind _ _ (Keeps-on_server _) λ _. Keeps-bind _ _ (Keeps-lift _) λ facts.
            Keeps-bind _ _ (Keeps-lift _)
              λ info. Keeps-bind _ _ (set_method-Keeps _) λ _. Keeps-pure _)
          (λ e.
            Keeps-if _ _ _ (legacy_stat-Keeps c resolved)
              (Keeps-if _ _ _ (Keeps-raise _) (Keeps-raise _)))

module _ {F : Ftplib} {A : Type 0} (Q : A → Files → Type 0) (E : Files → Type 0) where
  outcome_Ends :
      (r : Result A) (files : Files) (w : World F)
      → Ends Q E (r, files)
      → Ends (λ a (w : World F). Q a w.files) (λ w. E w.files) (r, record w { files = files })
  outcome_Ends (ok a) files w h = h
  outcome_Ends (err e) files w h = h

  -- What a call of the local file system does to the files.
  pub Ends-on_files :
      (m : Exec Files A) (w : World F)
      → Ends Q E (m w.files)
      → Ends (λ a (w : World F). Q a w.files) (λ w. E w.files) (on_files m w)
  unfolding on_files
  Ends-on_files m w h = let (r, files) = m w.files in outcome_Ends r files w h

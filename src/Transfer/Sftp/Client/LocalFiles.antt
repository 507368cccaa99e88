-- ===== src/Transfer/Sftp/Client/LocalFiles.antt =====
-- What the client does with the server leaves the local files alone.
use device_cli_tool.Base.{Bool, true, false, Result, ok, err, if◌then◌else◌}
use device_cli_tool.Base.Exec.{Exec, ◌>>=◌}
use device_cli_tool.Base.Exec.Keeps.{
  Keeps, Keeps-at, Keeps-of, Keeps-bind, Keeps-try_reraise, Keeps-gets, Keeps-lift, Keeps-pure,
  Keeps-require,
}
use device_cli_tool.Base.Exec.Triples.{Ends}
use device_cli_tool.Text.{Str}
use device_cli_tool.Transfer.Local.{Files}
use device_cli_tool.Transfer.Sftp.Options.{Client}
use device_cli_tool.Transfer.Sftp.Remote.{Remote, World, on_remote, on_files}
use device_cli_tool.Transfer.Sftp.Client.{connect, open_new, require_sftp, set_connected, stat}

module _ (R : Remote) (F : Files → Type 0) where
  abbrev pub OfFiles : World R → Type 0
  OfFiles w = F w.files

  pub Keeps-on_remote : {A : Type 0} (m : Exec R.State A) → Keeps OfFiles (on_remote m)
  unfolding on_remote
  Keeps-on_remote m = Keeps-of _ (λ w h. h)

  Keeps-set_connected : (b : Bool) → Keeps OfFiles (set_connected R b)
  unfolding set_connected ◌>>=◌
  Keeps-set_connected b = Keeps-of _ (λ w h. h)

  Keeps-open_new : Keeps OfFiles (open_new R)
  unfolding open_new
  Keeps-open_new = Keeps-bind _ _ (Keeps-on_remote _) λ _.
      Keeps-bind _ _ (Keeps-try_reraise _ _ (Keeps-on_remote _) (Keeps-on_remote _))
        λ _. Keeps-set_connected true

  connect_at :
      (b : Bool) (w : World R) → F w.files → F (if b then (ok tt, w) else open_new R w).1.files
  connect_at true w h = h
  connect_at false w h = Keeps-at (open_new R) Keeps-open_new w h

  pub Keeps-require_sftp : Keeps OfFiles (require_sftp R)
  unfolding require_sftp connect
  Keeps-require_sftp =
      Keeps-bind _ _ (Keeps-of (connect R) λ w h. connect_at w.connected w h)
        λ _. Keeps-bind _ _ (Keeps-gets _) λ is_open. Keeps-require is_open _

  pub Keeps-stat : (c : Client) (path : Str) → Keeps OfFiles (stat R c path)
  unfolding stat
  Keeps-stat c path = Keeps-bind _ _ (Keeps-lift _) λ resolved.
      Keeps-bind _ _ Keeps-require_sftp
        λ _. Keeps-bind _ _ (Keeps-on_remote _) λ attributes. Keeps-pure _

module _ {R : Remote} {A : Type 0} (Q : A → Files → Type 0) (E : Files → Type 0) where
  outcome_Ends :
      (r : Result A) (files : Files) (w : World R)
      → Ends Q E (r, files)
      → Ends (λ a (w : World R). Q a w.files) (λ w. E w.files) (r, record w { files = files })
  outcome_Ends (ok a) files w h = h
  outcome_Ends (err e) files w h = h

  -- What a call of the local file system does to the files.
  pub Ends-on_files :
      (m : Exec Files A) (w : World R)
      → Ends Q E (m w.files)
      → Ends (λ a (w : World R). Q a w.files) (λ w. E w.files) (on_files m w)
  unfolding on_files
  Ends-on_files m w h = let (r, files) = m w.files in outcome_Ends r files w h

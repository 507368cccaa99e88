-- ===== src/Tools/ReadonlyTransfer/FtpRun.antt =====
-- A run of the transfer tool with the FTP client.
use mathlib.Core.Path.{subst}
use device_cli_tool.Base.{Bool, true, false, ◌≡◌, refl, Option, ok, bind_ok, if◌then◌else◌}
use device_cli_tool.Base.Exec.{Exec, ◌>>=◌}
use device_cli_tool.Base.Exec.Triples.{Ends, Triple, Triple-bind, Triple-try_reraise}
use device_cli_tool.Base.Exec.Keeps.{Keeps, Keeps-at, Keeps-pure, Keeps-try_except}
use device_cli_tool.Text.{Str}
use device_cli_tool.Transfer.Local.{FilePath, Content}
use device_cli_tool.Transfer.Ftp.Options.{FtpClient, create_client}
use device_cli_tool.Transfer.Ftp.Server.{Ftplib, World, on_server}
use device_cli_tool.Transfer.Ftp.Session.{connect, close, close_open, open_new, open_session}
use device_cli_tool.Transfer.Ftp.Session.Calls.{Keeps-if, Keeps-on_server, Keeps-new_client}
use device_cli_tool.Transfer.Ftp.Session.Protected.{NotConnected}
use device_cli_tool.Tools.ReadonlyTransfer.{Args, Auth, ftp_arguments}
use device_cli_tool.Tools.ReadonlyTransfer.Run.{ReadOnlyFileTransfer, run_transfer}
use device_cli_tool.Tools.ReadonlyTransfer.Run.Closed.{IsClosing, run_transfer-at}
use device_cli_tool.Tools.ReadonlyTransfer.Clients.{ftp_transfer, build_client}

module _ (F : Ftplib) where
  abbrev Anything : {A : Type 0} → A → World F → Type 0
  Anything a w = Unit

  server-Keeps : {A : Type 0} (m : Exec F.State A) → Keeps (NotConnected {F = F}) (on_server m)
  server-Keeps m = Keeps-on_server F NotConnected (λ w s h. h) m

  kept :
      {A : Type 0} (m : Exec (World F) A)
      → Keeps NotConnected m
      → Triple NotConnected m (λ _. NotConnected) NotConnected
  kept m k = k.triple

  -- The session is noted as the last thing, so that an error finds it not connected.
  open_session_lem : (c : FtpClient) → Triple NotConnected (open_session F c) Anything NotConnected
  unfolding open_session
  open_session_lem c = Triple-bind _ _ (kept _ (server-Keeps _)) λ _.
      Triple-bind _ _ (kept _ (server-Keeps _)) λ _.
        Triple-bind _ _ (kept _ (Keeps-if _ _ _ (server-Keeps _) (Keeps-pure _)))
          λ _. Triple-bind _ _ (kept _ (server-Keeps _)) λ _. record { at = λ w h. tt }

  open_new_lem : (c : FtpClient) → Triple NotConnected (open_new F c) Anything NotConnected
  unfolding open_new
  open_new_lem c =
      Triple-bind _ _ (kept _ (Keeps-new_client F NotConnected (λ w s h. h) c))
        λ _. Triple-try_reraise _ _ (open_session_lem c) (Keeps-at _ (server-Keeps _))

  connect_at :
      (c : FtpClient) (b : Bool) (w : World F)
      → NotConnected w
      → Ends Anything NotConnected (if b then (ok tt, w) else open_new F c w)
  connect_at c true w h = tt
  connect_at c false w h = (open_new_lem c).at w h

  close_open_lem : (w : World F) → NotConnected (close_open F w).1
  unfolding close_open ◌>>=◌
  close_open_lem w =
      Keeps-at _ (Keeps-try_except _ _ (server-Keeps F.quit) (λ e. server-Keeps F.close))
        (record w { connected = false }) refl

  close_at :
      (b : Bool) (w : World F)
      → w.connected ≡ b
      → NotConnected (if b then close_open F w else (ok tt, w)).1
  close_at true w h = close_open_lem w
  close_at false w h = h

  module _ (hexdigest : Content → Str) (hard_links : Bool) (path : Str → FilePath)
      (unique : Str) where
    ftp-IsClosing :
        (c : FtpClient) → IsClosing NotConnected (ftp_transfer F hexdigest hard_links path unique c)
    unfolding ftp_transfer connect close
    ftp-IsClosing c = record {
      connect_fails = λ w h. connect_at c w.connected w h;
      closes = λ w. close_at w.connected w refl;
    }

    build-IsClosing :
        (a : Args) (auth : Auth) (client : ReadOnlyFileTransfer (World F))
        → build_client F hexdigest hard_links path unique a auth ≡ ok client
        → IsClosing NotConnected client
    unfolding build_client
    build-IsClosing a auth client h =
        let (c, made, e) =
          bind_ok (create_client (ftp_arguments a auth))
            (λ c. ok (ftp_transfer F hexdigest hard_links path unique c)) client h in
        let same : ftp_transfer F hexdigest hard_links path unique c ≡ client = cc in
        subst (IsClosing NotConnected) same (ftp-IsClosing c)

-- A run of the transfer tool with the FTP client, on a client that is not connected, leaves it not
-- connected, whatever the arguments, the environment and the server are, and however the run ends.
pub ftp_run-NotConnected :
    (F : Ftplib) (digest : Str → Str) (hexdigest : Content → Str) (environ : Str → Option Str)
    (hard_links : Bool) (path : Str → FilePath) (unique : Str) (include_paths : Bool) (a : Args)
    (w : World F)
    → w.connected ≡ false
    → (run_transfer digest environ
        (build_client F hexdigest hard_links path unique)
        include_paths
        a
        w).1.connected
      ≡ false
ftp_run-NotConnected F digest hexdigest environ hard_links path unique include_paths a w h =
    run_transfer-at digest environ (build_client F hexdigest hard_links path unique) include_paths
      NotConnected a (build-IsClosing F hexdigest hard_links path unique a) w h

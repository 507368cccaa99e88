-- ===== src/Transfer/Ftp/Session/Protected.antt =====
-- A session whose data channel the server does not protect.
use device_cli_tool.Base.{Bool, true, false, if◌then◌else◌, ◌≡◌, Result, ok, err, IsErr}
use device_cli_tool.Base.Exec.{Exec, ◌>>=◌}
use device_cli_tool.Base.Exec.Triples.{Ends, Triple, Triple-bind, Triple-try_reraise}
use device_cli_tool.Base.Exec.Keeps.{Keeps, Keeps-at}
use device_cli_tool.Transfer.Ftp.Options.{FtpClient, is_plaintext}
use device_cli_tool.Transfer.Ftp.Server.{Ftplib, World, on_server}
use device_cli_tool.Transfer.Ftp.Session.{connect, open_new, open_session, require_ftp}
use device_cli_tool.Transfer.Ftp.Session.Calls.{Keeps-on_server, Keeps-new_client}

-- An action that raises from where `P` holds, and leaves it true.
abbrev pub Raises : {S A : Type 0} → (S → Type 0) → Exec S A → Type 0
Raises P m = Triple P m (λ _ _. ⊥) P

module _ {S A : Type 0} where
  pub Raises-bind :
      {P : S → Type 0} {B : Type 0} (m : Exec S A) (f : A → Exec S B)
      → Raises P m
      → Raises P (m >>= f)
  Raises-bind m f rm = Triple-bind m f rm (λ a. record { at = λ s h. absurd h })

  raised_lem : (E : S → Type 0) (r : Result A) (s : S) → Ends (λ _ _. ⊥) E (r, s) → IsErr r
  raised_lem E (ok a) s h = absurd h
  raised_lem E (err e) s h = tt

  pub Raises-IsErr : {P : S → Type 0} (m : Exec S A) (s : S) → Raises P m → P s → IsErr (m s).0
  Raises-IsErr {P = P} m s rm h = let (r, s') = m s in raised_lem P r s' (rm.at s h)

  pub Keeps-Raises :
      {P : S → Type 0} {B : Type 0} (m : Exec S A) (f : A → Exec S B)
      → Keeps P m
      → ((a : A) → Raises P (f a))
      → Raises P (m >>= f)
  Keeps-Raises m f km rf = Triple-bind m f km.triple rf

abbrev pub NotConnected : {F : Ftplib} → World F → Type 0
NotConnected w = w.connected ≡ false

module _ (F : Ftplib) (c : FtpClient) (refused : (s : F.State) → IsErr (F.prot_p s).0)
    (tls : is_plaintext c.protocol ≡ false) where
  refused_lem :
      (r : Result (Unit {0})) (w : World F)
      → IsErr r
      → NotConnected w
      → Ends (λ _ _. ⊥) NotConnected (r, w)
  refused_lem (ok u) w x h = x
  refused_lem (err e) w x h = h

  prot_p-Raises : Raises (NotConnected {F = F}) (on_server F.prot_p)
  unfolding on_server
  prot_p-Raises = record {
    at = λ w h.
        let (r, s) = F.prot_p w.remote in
        refused_lem r (record w { remote = s }) (refused w.remote) h;
  }

  server-Keeps : {A : Type 0} (m : Exec F.State A) → Keeps (NotConnected {F = F}) (on_server m)
  server-Keeps m = Keeps-on_server F NotConnected (λ w s h. h) m

  open_session-Raises : Raises NotConnected (open_session F c)
  unfolding open_session
  open_session-Raises = rw tls (
      Keeps-Raises _ _ (server-Keeps _)
        λ _. Keeps-Raises _ _ (server-Keeps _) λ _. Raises-bind _ _ prot_p-Raises)

  open_new-Raises : Raises NotConnected (open_new F c)
  unfolding open_new
  open_new-Raises =
      Keeps-Raises _ _ (Keeps-new_client F NotConnected (λ w s h. h) c)
        λ _. Triple-try_reraise _ _ open_session-Raises (Keeps-at _ (server-Keeps _))

  connect_at :
      (b : Bool) (w : World F)
      → b ≡ false
      → NotConnected w
      → Ends (λ (_ : Unit {0}) _. ⊥) NotConnected (if b then (ok tt, w) else open_new F c w)
  connect_at true w e h = absurd cc
  connect_at false w e h = open_new-Raises.at w h

  connect-Raises : Raises NotConnected (connect F c)
  unfolding connect
  connect-Raises = record { at = λ w h. connect_at w.connected w h h }

  pub require_ftp-Raises : Raises NotConnected (require_ftp F c)
  unfolding require_ftp
  require_ftp-Raises = Raises-bind _ _ connect-Raises

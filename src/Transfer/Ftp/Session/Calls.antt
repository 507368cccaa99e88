-- ===== src/Transfer/Ftp/Session/Calls.antt =====
-- The calls of the server keep what does not depend on the server's state.
use device_cli_tool.Base.{Bool, true, false, Option, none, some, if◌then◌else◌}
use device_cli_tool.Base.Exec.{Exec}
use device_cli_tool.Base.Exec.Keeps.{Keeps, Keeps-of, Keeps-bind, Keeps-pure, Keeps-raise}
use device_cli_tool.Text.{Str}
use device_cli_tool.Transfer.Ftp.Options.{FtpClient}
use device_cli_tool.Transfer.Ftp.Server.{Ftplib, World, on_server}
use device_cli_tool.Transfer.Ftp.Session.{new_client, tls_context, default_context}

module _ {S A : Type 0} {P : S → Type 0} where
  pub Keeps-if : (b : Bool) (m n : Exec S A) → Keeps P m → Keeps P n → Keeps P (if b then m else n)
  Keeps-if true m n km kn = km
  Keeps-if false m n km kn = kn

module _ (F : Ftplib) (P : World F → Type 0)
    (stable : (w : World F) (s : F.State) → P w → P (record w { remote = s })) where
  pub Keeps-on_server : {A : Type 0} (m : Exec F.State A) → Keeps P (on_server m)
  unfolding on_server
  Keeps-on_server m = Keeps-of _ (λ w h. stable w (m w.remote).1 h)

  default_context-Keeps : (ca_file : Option Str) → Keeps P (default_context F ca_file)
  default_context-Keeps none = Keeps-pure _
  default_context-Keeps (some path) =
      Keeps-if _ _ _ (Keeps-raise _) (Keeps-bind _ _ (Keeps-on_server _) λ _. Keeps-pure _)

  pub Keeps-new_client : (c : FtpClient) → Keeps P (new_client F c)
  unfolding new_client tls_context
  Keeps-new_client c = Keeps-if _ _ _ (Keeps-on_server _) (
      Keeps-bind _ _ (Keeps-if _ _ _ (Keeps-pure _) (default_context-Keeps c.ca_file))
        λ verified. Keeps-on_server _)

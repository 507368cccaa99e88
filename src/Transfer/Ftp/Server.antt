-- ===== src/Transfer/Ftp/Server.antt =====
-- What cli_tool/transfer/ftp.py uses of ftplib and ssl, as a parameter, and the world of a client:
-- the server's state, whether a session is open, the attributes that change, and the local files.
use device_cli_tool.Base.{ℕ, Bool, false, ◌||◌, Option, List, [], ◌∷◌, Error, ftp_error_perm}
use device_cli_tool.Base.Exec.{Exec}
use device_cli_tool.Text.{Str, codes, lstrip, starts_with}
use device_cli_tool.Transfer.Local.{Files, Content}

-- A dictionary, in the order of insertion.
abbrev pub Facts : Type 0
Facts = List (Str × Str)

-- The classes of a control connection.
pub data Security : Type 0 where
  plain : Security
  explicit_tls implicit_tls : (verified : Bool) → Security

-- `error_perm` is the error `ftp_error_perm` with the server's reply. `new_client` is the
-- constructor of the connection's class. `mlsd` is the list of `client.mlsd`, with the facts that
-- are asked for or without; it raises `attribute_error` where ftplib has no `mlsd`. `retrlines`
-- gives the lines. `retrbinary` calls its callback with each block.
pub record Ftplib : Type 1 where
  pub State : Type 0
  pub is_file : Str → Bool
  pub load_ca : Str → Exec State (Unit {0})
  pub new_client : Security → Exec State (Unit {0})
  pub connect : ℕ → Exec State (Unit {0})
  pub login : Exec State (Unit {0})
  pub prot_p : Exec State (Unit {0})
  pub set_pasv : Bool → Exec State (Unit {0})
  pub quit : Exec State (Unit {0})
  pub close : Exec State (Unit {0})
  pub mlsd : Str → (facts : Bool) → Exec State (List (Str × Facts))
  pub sendcmd : Str → Exec State Str
  pub retrlines : Str → Exec State (List Str)
  pub retrbinary :
      {S : Type 0} → Str → (Content → Exec S (Unit {0})) → ℕ → Exec (State × S) (Unit {0})

pub record World (F : Ftplib) : Type 0 where
  pub remote : F.State
  pub connected : Bool
  pub last_listing_method : Option Str
  pub last_metadata_method : Option Str
  pub files : Files

module _ {F : Ftplib} {A : Type 0} where
  -- A call of the server.
  unfoldable pub on_server : Exec F.State A → Exec (World F) A
  on_server action w = let (r, s) = action w.remote in (r, record w { remote = s })

  -- A call of the local file system.
  unfoldable pub on_files : Exec Files A → Exec (World F) A
  on_files action w = let (r, files) = action w.files in (r, record w { files = files })

abbrev reply_starts : Str → List Str → Bool
reply_starts s [] = false
reply_starts s (prefix ∷ prefixes) = starts_with s prefix || reply_starts s prefixes

-- `_is_not_found` of an `error_perm`: it has no `errno`.
abbrev pub is_not_found : Error → Bool
is_not_found (ftp_error_perm m) = starts_with (lstrip (codes m)) (codes "550")
is_not_found _ = false

-- `_is_unsupported_command` of an `error_perm`.
abbrev pub is_unsupported_command : Error → Bool
is_unsupported_command (ftp_error_perm m) =
    reply_starts (lstrip (codes m)) (codes "500" ∷ codes "501" ∷ codes "502" ∷ codes "504" ∷ [])
is_unsupported_command _ = false

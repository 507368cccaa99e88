-- ===== src/Tools/ReadonlyTransfer/Accepted.antt =====
-- What the tool lets pass, the clients accept.
use device_cli_tool.Base.{
  Bool, true, false, not, ◌≡◌, refl, arith, Option, none, some, inl, inr, Bool-cases, ltb, ◌||◌, [],
  ◌∷◌, is_empty, is_none, if◌then◌else◌, Result, ok, err, is_ok, ◌>>=◌,
}
use device_cli_tool.Text.{Str, codes, str_mem, lower}
use device_cli_tool.Transfer.Paths.{resolve_remote_path}
use device_cli_tool.Transfer.Sftp.Options as Sftp
use device_cli_tool.Transfer.Ftp.Options as Ftp
use device_cli_tool.Tools.ReadonlyTransfer.{
  Protocol, sftp, ftps, ftps_implicit, ftp, Args, Auth, is_sftp, is_ftp, validate_operation,
  validate_protocol, validate_args, resolve_auth, key_auth, password_auth, sftp_arguments,
  ftp_arguments, or_default, protocol_name, default_env, resolved_port,
}

-- The credentials that were found.
key_lem : (o : Option Str) (auth : Auth) → key_auth o ≡ ok auth → auth.password ≡ none
key_lem none auth h = absurd cc
key_lem (some p) auth h = ground (arith, h)

password_lem :
    (o : Option Str) (auth : Auth)
    → password_auth o ≡ ok auth
    → (Sftp.is_given auth.password ≡ true) × (auth.passphrase ≡ none)
password_lem none auth h = absurd cc
password_lem (some []) auth h = absurd cc
password_lem (some (c ∷ s)) auth h = (ground (arith, h), ground (arith, h))

none_lem : (o : Option Str) → o ≡ none → Sftp.is_given o ≡ false
none_lem none h = refl
none_lem (some s) h = absurd cc

name_lem :
    (p : Protocol) → is_sftp p ≡ false → str_mem (lower (protocol_name p)) Ftp.ftp_protocols ≡ true
unfolding lower
name_lem sftp h = absurd cc
name_lem ftps h = refl
name_lem ftps_implicit h = refl
name_lem ftp h = refl

plaintext_lem : (p : Protocol) → Ftp.is_plaintext (lower (protocol_name p)) ≡ is_ftp p
unfolding lower
plaintext_lem sftp = refl
plaintext_lem ftps = refl
plaintext_lem ftps_implicit = refl
plaintext_lem ftp = refl

given_lem : (o : Option Str) → Sftp.is_given o ≡ true → is_empty (or_default [] o) ≡ false
given_lem none h = absurd cc
given_lem (some []) h = absurd cc
given_lem (some (c ∷ s)) h = refl

ca_lem : (o : Option Str) → is_none (Ftp.unless_empty o) ≡ not (Sftp.is_given o)
ca_lem none = refl
ca_lem (some []) = refl
ca_lem (some (c ∷ s)) = refl

-- The one format, normalized.
format_lem :
    (b : Bool)
    → Ftp.lowered (Ftp.unless_empty (if b then some (codes "unix") else none))
      ≡ (if b then some (codes "unix") else none)
unfolding lower
format_lem true = refl
format_lem false = refl

module _ (environ : Str → Option Str) (a : Args) (auth : Auth)
    (resolved : resolve_auth environ a ≡ ok auth) where
  with_key : Sftp.is_given a.private_key ≡ true → Sftp.is_given auth.password ≡ false
  unfolding resolve_auth
  with_key k =
      none_lem auth.password (elim (Bool-cases (Sftp.is_given a.private_key_passphrase_env)) [
        | inl e ↦
            key_lem (environ (or_default [] a.private_key_passphrase_env)) auth
              (ground (arith, resolved, k, e))
        | inr e ↦ ground (arith, resolved, k, e)
      ])

  with_password :
      Sftp.is_given a.private_key ≡ false
      → (Sftp.is_given auth.password ≡ true) × (auth.passphrase ≡ none)
  unfolding resolve_auth
  with_password k =
      password_lem (environ (or_default (default_env a.protocol) a.password_env)) auth
        (ground (arith, resolved, k))

  module _ (valid : validate_args a ≡ ok tt) (host : is_empty a.host ≡ false)
      (username : is_empty a.username ≡ false) where
    operation_valid : validate_operation a ≡ ok tt
    unfolding validate_args
    operation_valid = ground (arith, valid)

    protocol_valid : validate_protocol a ≡ ok tt
    unfolding validate_args
    protocol_valid = ground (arith, valid)

    port_valid : (ltb (resolved_port a) 1 || ltb 65535 (resolved_port a)) ≡ false
    unfolding validate_operation
    port_valid = ground (arith, operation_valid)

    sftp_checked :
        (is_file : Bool)
        → is_sftp a.protocol ≡ true
        → (Sftp.is_given a.private_key ≡ true → is_file ≡ true)
        → Sftp.check_arguments (sftp_arguments a auth) is_file ≡ ok tt
    unfolding Sftp.check_arguments sftp_arguments validate_operation validate_protocol
    sftp_checked is_file p file = elim (Bool-cases (Sftp.is_given a.private_key)) [
      | inl k ↦ ground (
        arith,
        operation_valid,
        protocol_valid,
        port_valid,
        with_key k,
        k,
        p,
        file k,
        host,
        username,
      )
      | inr k ↦
          let (given, no_passphrase) = with_password k in
          ground (
            arith, operation_valid, protocol_valid, port_valid, given, no_passphrase, k, p, host,
            username,
          )
    ]

    ftp_checked :
        is_sftp a.protocol ≡ false
        → Ftp.check_options
            (ftp_arguments a auth)
            (lower (protocol_name a.protocol))
            (resolved_port a)
            (Ftp.lowered (Ftp.unless_empty (ftp_arguments a auth).legacy_list_format))
          ≡ ok tt
    unfolding Ftp.check_options ftp_arguments validate_operation validate_protocol
    ftp_checked p =
        let no_key : Sftp.is_given a.private_key ≡ false = ground (arith, protocol_valid, p) in
        let (given, no_passphrase) = with_password no_key in
        ground (
          arith,
          operation_valid,
          protocol_valid,
          port_valid,
          given,
          p,
          host,
          username,
          name_lem a.protocol p,
          plaintext_lem a.protocol,
          given_lem auth.password,
          ca_lem a.ca_file,
          format_lem a.legacy_list_format,
        )

built_lem :
    {A : Type 0} (r : Result (Unit {0})) (q : Result Str) (f : Str → A)
    → r ≡ ok tt
    → is_ok q ≡ true
    → is_ok (r >>= λ _. q >>= λ root. ok (f root)) ≡ true
built_lem (ok u) (ok root) f h h' = refl
built_lem (ok u) (err e) f h h' = absurd cc
built_lem (err e) q f h h' = absurd cc

-- What the transfer tool lets pass, the client accepts. Where the arguments are valid, the credentials
-- were found, host and user name are not empty, a private key that is named is a file, and the root is a
-- path that `resolve_remote_path` takes, the constructor of the client for the protocol returns: the SFTP
-- client's for "sftp", the FTP client's for the three others.
pub validated-accepted :
    (environ : Str → Option Str) (a : Args) (auth : Auth) (is_file : Bool)
    → validate_args a ≡ ok tt
    → resolve_auth environ a ≡ ok auth
    → is_empty a.host ≡ false
    → is_empty a.username ≡ false
    → (Sftp.is_given a.private_key ≡ true → is_file ≡ true)
    → is_ok (resolve_remote_path a.remote_root (codes ".")) ≡ true
    → (is_sftp a.protocol ≡ true
        → is_ok (Sftp.create_client (sftp_arguments a auth) is_file) ≡ true)
      × (is_sftp a.protocol ≡ false → is_ok (Ftp.create_client (ftp_arguments a auth)) ≡ true)
unfolding Sftp.create_client Ftp.create_client sftp_arguments ftp_arguments
validated-accepted environ a auth is_file valid resolved host username file root = (
  λ p.
      built_lem (Sftp.check_arguments (sftp_arguments a auth) is_file)
        (resolve_remote_path a.remote_root (codes ".")) _
        (sftp_checked environ a auth resolved valid host username is_file p file) root,
  λ p.
      built_lem (Ftp.check_options (ftp_arguments a auth) _ _ _)
        (resolve_remote_path a.remote_root (codes ".")) _
        (ftp_checked environ a auth resolved valid host username p) root,
)

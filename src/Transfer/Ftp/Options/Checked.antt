-- ===== src/Transfer/Ftp/Options/Checked.antt =====
-- What a client is once its arguments are checked.
use mathlib.Core.Path.{subst}
use device_cli_tool.Base.{
  ◌≤◌, true, false, ◌≡◌, refl, ap, arith, Option, none, some, is_none, Result, ok, err, ◌>>=◌,
}
use device_cli_tool.Text.{Str, codes, lower, str_mem}
use device_cli_tool.Text.Laws.{str_eq→eq}
use device_cli_tool.Transfer.Paths.{resolve_remote_path}
use device_cli_tool.Transfer.Ftp.Options.{
  Arguments, FtpClient, ftp_protocols, is_plaintext, resolved_port, unless_empty, lowered, is_unix,
  check_options, create_client,
}

is_none→eq : {A : Type 0} (o : Option A) → is_none o ≡ true → o ≡ none
is_none→eq none h = refl
is_none→eq (some value) h = absurd (ground arith)

-- What the checks have found.
pub record IsChecked (a : Arguments) (c : FtpClient) : Type 0 where
  pub protocol_known : str_mem c.protocol ftp_protocols ≡ true
  pub plaintext_allowed : is_plaintext c.protocol ≡ true → a.allow_insecure_ftp ≡ true
  pub plaintext_verified : is_plaintext c.protocol ≡ true → c.allow_unverified_tls ≡ false
  pub plaintext_no_ca : is_plaintext c.protocol ≡ true → c.ca_file ≡ none
  pub port_low : 1 ≤ c.port
  pub port_high : c.port ≤ 65535
  pub legacy_format : c.allow_legacy_listing ≡ true → c.legacy_list_format ≡ some (codes "unix")
  pub no_legacy_format : c.allow_legacy_listing ≡ false → c.legacy_list_format ≡ none
  pub limit_positive : 1 ≤ c.max_download_bytes
  pub chunk_positive : 1 ≤ c.chunk_size
  pub root_resolved : resolve_remote_path a.remote_root (codes ".") ≡ ok c.remote_root

unix_lem :
    (format : Option Str)
    → is_none format ≡ false
    → is_unix format ≡ true
    → format ≡ some (codes "unix")
unix_lem none h u = absurd (ground (arith, h))
unix_lem (some s) h u = ap (λ t. some t) (str_eq→eq s (codes "unix") u)

-- A client that was built comes behind both checks.
built_lem :
    (r : Result (Unit {0})) (q : Result Str) (f : Str → FtpClient) (c : FtpClient)
    → (r >>= λ _. q >>= λ root. ok (f root)) ≡ ok c
    → (r ≡ ok tt) × ((root : Str) × (q ≡ ok root) × (f root ≡ c))
built_lem (ok u) (ok root) f c h = (refl, (root, refl, cc))
built_lem (ok u) (err e) f c h = absurd cc
built_lem (err e) q f c h = absurd cc

module _ (a : Arguments) where
  checked_lem :
      (root : Str)
      → check_options a
          (lower a.protocol)
          (resolved_port (lower a.protocol) a.port)
          (lowered (unless_empty a.legacy_list_format))
        ≡ ok tt
      → resolve_remote_path a.remote_root (codes ".") ≡ ok root
      → IsChecked a (record {
        protocol = lower a.protocol;
        port = resolved_port (lower a.protocol) a.port;
        remote_root = root;
        passive = a.passive;
        ca_file = unless_empty a.ca_file;
        allow_unverified_tls = a.allow_unverified_tls;
        allow_legacy_listing = a.allow_legacy_listing;
        legacy_list_format = lowered (unless_empty a.legacy_list_format);
        max_download_bytes = a.max_download_bytes;
        chunk_size = a.chunk_size;
      })
  unfolding check_options
  checked_lem root h e = record {
    protocol_known = ground (arith, h);
    plaintext_allowed = λ p. ground (arith, h, p);
    plaintext_verified = λ p. ground (arith, h, p);
    plaintext_no_ca = λ p. is_none→eq (unless_empty a.ca_file) (ground (arith, h, p));
    port_low = ground (arith, h);
    port_high = ground (arith, h);
    legacy_format = λ l.
        unix_lem (lowered (unless_empty a.legacy_list_format)) (ground (arith, h, l))
          (ground (arith, h, l));
    no_legacy_format =
        λ l. is_none→eq (lowered (unless_empty a.legacy_list_format)) (ground (arith, h, l));
    limit_positive = ground (arith, h);
    chunk_positive = ground (arith, h);
    root_resolved = e;
  }

-- A client exists only where its protocol is one of the three, plaintext FTP was allowed and got no TLS
-- option, the port, the limit and the chunk size are in range, the legacy listing has the UNIX format and
-- its format is given exactly where it is allowed, and the root is what `resolve_remote_path` returned.
pub create_client-IsChecked :
    (a : Arguments) (c : FtpClient) → create_client a ≡ ok c → IsChecked a c
unfolding create_client
create_client-IsChecked a c h =
    let (checks, found) =
      built_lem (check_options a _ _ _) (resolve_remote_path a.remote_root (codes ".")) _ c h in
    let (root, resolved, e) = found in subst (IsChecked a) e (checked_lem a root checks resolved)

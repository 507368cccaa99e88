-- ===== src/Tools/ReadonlySmoke/Credentials.antt =====
-- Where the password of tools/cli_tool_readonly_smoke.py comes from.
use mathlib.Core.Path.{subst}
use device_cli_tool.Base.{
  Bool, true, false, not, ◌≡◌, refl, sym, ap, ◌⊎◌, inl, inr, Option, none, some, [], ◌∷◌, ◌++◌,
  is_empty, ok, Ensures, Ensures-bind, Ensures-ok, Ensures-err, Ensures-if,
}
use device_cli_tool.Text.{Str, codes, str_eq}
use device_cli_tool.Text.Laws.{str_eq→eq}
use device_cli_tool.Devices.Catalog.{Entries}
use device_cli_tool.Tools.ReadonlySmoke.Settings.{optional_string, given_or}
use device_cli_tool.Tools.ReadonlySmoke.Sources.{Args, EnvironmentConfig, given, or_empty}
use device_cli_tool.Tools.ReadonlySmoke.Target.{
  Kind, ssh, serial, telnet, SmokeTarget, Auth, same_user, env_auth, or_env, required, unnamed_auth,
  resolve_password, resolve_serial_target, resolve_network_target, target_of, resolve_target,
}

module _ (environ : Str → Option Str) (env : Option EnvironmentConfig) where
  -- A password of the environment, or the one that `config_loader` gave, for its own user.
  abbrev pub IsCredential : Str → Option Str → Type 0
  IsCredential password username =
      ((name : Str) × (environ name ≡ some password) × (is_empty password ≡ false))
      ⊎ ((e : EnvironmentConfig) × (env ≡ some e)
          × (password ≡ e.password)
          × (username ≡ some e.username))

  abbrev IsAuth : Option Str → Auth → Type 0
  IsAuth username auth = IsCredential auth.password username

  env_auth-IsAuth :
      (username : Option Str) (name : Str) (value : Option Str)
      → environ name ≡ value
      → Ensures (IsAuth username) (env_auth name value)
  env_auth-IsAuth username name none h = Ensures-err (IsAuth username) _
  env_auth-IsAuth username name (some []) h = Ensures-err (IsAuth username) _
  env_auth-IsAuth username name (some (c ∷ s)) h =
      Ensures-ok (IsAuth username) (record { password = c ∷ s; auth_source = codes "env:" ++ name })
        (inl (name, h, refl))

  same_user_lem :
      (username : Option Str) (user : Str)
      → not (same_user username user) ≡ false
      → username ≡ some user
  same_user_lem none user h = cc
  same_user_lem (some s) user h = ap some (str_eq→eq s user (not_lem (str_eq s user) h))
    where
      not_lem : (b : Bool) → not b ≡ false → b ≡ true
      not_lem true h = refl
      not_lem false h = cc

  unnamed_at :
      (source : Option EnvironmentConfig) (username : Option Str)
      → env ≡ source
      → Ensures (IsAuth username) (unnamed_auth environ source username)
  unnamed_at none username h = env_auth-IsAuth username (codes "CLI_TOOL_SSH_PASSWORD") _ refl
  unnamed_at (some e) username h =
      Ensures-if (IsAuth username) (not (same_user username e.username)) _ _
        (λ _. Ensures-err (IsAuth username) _)
        (λ same.
          Ensures-ok (IsAuth username) _ (inr (e, h, refl, same_user_lem username e.username same)))

  password-IsAuth :
      (args : Args) (config : Entries) (username : Option Str)
      → Ensures (IsAuth username) (resolve_password environ args config env username)
  unfolding resolve_password
  password-IsAuth args config username =
      Ensures-bind (IsAuth username)
        (given_or args.password_env (optional_string config (codes "password_env"))) _
        (λ name _.
          Ensures-if (IsAuth username) (given name) _ _
            (λ _. env_auth-IsAuth username (or_empty name) (environ (or_empty name)) refl)
            (λ _. unnamed_at env username refl))

  -- What holds of a target that is resolved.
  pub record IsTarget (transport : Kind) (t : SmokeTarget) : Type 0 where
    pub transport_kept : t.transport ≡ transport
    pub host_given : is_empty t.host ≡ false
    pub user_given : is_empty t.username ≡ false
    pub credential : IsCredential t.password (some t.username)

  required_lem :
      (v : Option Str) (s : Str) → required v ≡ ok s → (v ≡ some s) × (is_empty s ≡ false)
  required_lem none s h = absurd cc
  required_lem (some []) s h = absurd cc
  required_lem (some (c ∷ cs)) s h =
      let same : c ∷ cs ≡ s = cc in (ap some same, ap is_empty (sym same))

  module _ (args : Args) (config : Entries) (username : Option Str) (auth : Auth)
      (known : IsAuth username auth) where
    credential_lem : (user : Str) → username ≡ some user → IsCredential auth.password (some user)
    credential_lem user h = subst (IsCredential auth.password) h known

    serial-IsTarget :
        Ensures (IsTarget serial) (resolve_serial_target args env config username auth)
    unfolding resolve_serial_target
    serial-IsTarget =
        Ensures-bind (IsTarget serial)
          (given_or args.serial_port (optional_string config (codes "serial_port"))) _
          (λ serial_port _.
            Ensures-bind (IsTarget serial)
              (given_or args.node_key (optional_string config (codes "node_key"))) _
              (λ key _. Ensures-bind (IsTarget serial) (required serial_port) _ (λ port hp.
                Ensures-bind (IsTarget serial) (required username) _ (λ user hu.
                  let (known_user, user_given) = required_lem username user hu in
                  Ensures-ok (IsTarget serial) _ (record {
                    transport_kept = refl;
                    host_given = (required_lem serial_port port hp).1;
                    user_given = user_given;
                    credential = credential_lem user known_user;
                  })))))

    network-IsTarget :
        (transport : Kind)
        → Ensures
            (IsTarget transport)
            (resolve_network_target args env config transport username auth)
    unfolding resolve_network_target
    network-IsTarget transport =
        Ensures-bind (IsTarget transport)
          (given_or args.node_key (optional_string config (codes "node_key"))) _
          (λ key _.
            Ensures-bind (IsTarget transport)
              (given_or args.host (optional_string config (codes "host"))) _
              (λ address _.
                Ensures-bind (IsTarget transport) (required (or_env key (λ e. e.node_key) env)) _
                  (λ node_key _.
                    Ensures-bind (IsTarget transport)
                      (required (or_env address (λ e. e.device_ip) env)) _
                      (λ host hh.
                        Ensures-bind (IsTarget transport) (required username) _ (λ user hu.
                          let (known_user, user_given) = required_lem username user hu in
                          Ensures-ok (IsTarget transport) _ (record {
                            transport_kept = refl;
                            host_given =
                                (required_lem (or_env address (λ e. e.device_ip) env) host hh).1;
                            user_given = user_given;
                            credential = credential_lem user known_user;
                          }))))))

    target_of-IsTarget :
        (transport : Kind)
        → Ensures (IsTarget transport) (target_of args env config transport username auth)
    target_of-IsTarget serial = serial-IsTarget
    target_of-IsTarget ssh = network-IsTarget ssh
    target_of-IsTarget telnet = network-IsTarget telnet

  pub resolve_target-IsTarget :
      (args : Args) (config : Entries) (transport : Kind)
      → Ensures (IsTarget transport) (resolve_target environ args env config transport)
  unfolding resolve_target
  resolve_target-IsTarget args config transport =
      Ensures-bind (IsTarget transport)
        (given_or args.username (optional_string config (codes "username"))) _
        (λ name _.
          let username = or_env name (λ e. e.username) env in
          Ensures-bind (IsTarget transport) (resolve_password environ args config env username) _
            (λ auth h.
              target_of-IsTarget args config username auth
                (password-IsAuth args config username auth h) transport))

-- ===== src/Tools/ReadonlySmoke/Target.antt =====
-- The device that tools/cli_tool_readonly_smoke.py talks to, and its password.
use device_cli_tool.Base.{
  Bool, false, not, Option, none, some, ◌∷◌, ◌++◌, if◌then◌else◌, Result, ok, err, system_exit,
  ◌>>=◌,
}
use device_cli_tool.Text.{Str, codes, str_eq}
use device_cli_tool.Devices.Catalog.{Entries}
use device_cli_tool.Tools.ReadonlySmoke.Settings.{optional_string, given_or}
use device_cli_tool.Tools.ReadonlySmoke.Sources.{Args, EnvironmentConfig, given, or_empty}

-- The choices of the transport.
pub data Kind : Type 0 where
  ssh serial telnet : Kind

pub record SmokeTarget : Type 0 where
  pub node_key : Str
  pub host : Str
  pub username : Str
  pub password : Str
  pub auth_source : Str
  pub transport : Kind
  pub serial_port : Option Str

pub record Auth : Type 0 where
  pub password : Str
  pub auth_source : Str

-- The username is the one that the password of `config_loader` belongs to.
abbrev pub same_user : Option Str → Str → Bool
same_user none user = false
same_user (some s) user = str_eq s user

-- A variable that is not set, or empty, is no password.
abbrev pub env_auth : Str → Option Str → Result Auth
env_auth name (some (c ∷ s)) = ok (record { password = c ∷ s; auth_source = codes "env:" ++ name })
env_auth name _ = err (system_exit "missing CLI password env var")

abbrev default_password_env : Str
default_password_env = codes "CLI_TOOL_SSH_PASSWORD"

-- `value`, or else the same of the environment.
abbrev pub or_env : Option Str → (EnvironmentConfig → Str) → Option EnvironmentConfig → Option Str
or_env (some s) field env = some s
or_env none field none = none
or_env none field (some env) = some (field env)

abbrev pub required : Option Str → Result Str
required (some (c ∷ s)) = ok (c ∷ s)
required _ = err (system_exit "missing required arguments")

module _ (environ : Str → Option Str) where
  -- The password, where no variable is named.
  abbrev pub unnamed_auth : Option EnvironmentConfig → Option Str → Result Auth
  unnamed_auth none username = env_auth default_password_env (environ default_password_env)
  unnamed_auth (some env) username =
      if not (same_user username env.username)
      then err (system_exit "overriding the username requires a password variable")
      else ok (record {
        password = env.password;
        auth_source = codes "config_loader:" ++ env.auth_profile ++ codes ":readwrite";
      })

  -- `_resolve_password`
  unfoldable pub resolve_password :
      Args → Entries → Option EnvironmentConfig → Option Str → Result Auth
  resolve_password args config env username = do
    password_env ← given_or args.password_env (optional_string config (codes "password_env"))
    if given password_env
        then env_auth (or_empty password_env) (environ (or_empty password_env))
        else unnamed_auth env username

-- `_resolve_serial_target`
unfoldable pub resolve_serial_target :
    Args → Option EnvironmentConfig → Entries → Option Str → Auth → Result SmokeTarget
resolve_serial_target args env config username auth = do
  serial_port ← given_or args.serial_port (optional_string config (codes "serial_port"))
  key ← given_or args.node_key (optional_string config (codes "node_key"))
  port ← required serial_port
  user ← required username
  ok (record {
    node_key = or_empty (or_port (or_env key (λ e. e.node_key) env) serial_port);
    host = port;
    username = user;
    password = auth.password;
    auth_source = auth.auth_source;
    transport = serial;
    serial_port = some port;
  })
  where
    or_port : Option Str → Option Str → Option Str
    or_port none port = port
    or_port (some key) port = some key

-- The rest of `_resolve_target`, for SSH and Telnet.
unfoldable pub resolve_network_target :
    Args → Option EnvironmentConfig → Entries → Kind → Option Str → Auth → Result SmokeTarget
resolve_network_target args env config transport username auth = do
  key ← given_or args.node_key (optional_string config (codes "node_key"))
  address ← given_or args.host (optional_string config (codes "host"))
  node_key ← required (or_env key (λ e. e.node_key) env)
  host ← required (or_env address (λ e. e.device_ip) env)
  user ← required username
  ok (record {
    node_key = node_key;
    host = host;
    username = user;
    password = auth.password;
    auth_source = auth.auth_source;
    transport = transport;
    serial_port = none;
  })

abbrev pub target_of :
    Args → Option EnvironmentConfig → Entries → Kind → Option Str → Auth → Result SmokeTarget
target_of args env config serial username auth = resolve_serial_target args env config username auth
target_of args env config transport username auth =
    resolve_network_target args env config transport username auth

-- `_resolve_target`
unfoldable pub resolve_target :
    (Str → Option Str) → Args → Option EnvironmentConfig → Entries → Kind → Result SmokeTarget
resolve_target environ args env config transport = do
  name ← given_or args.username (optional_string config (codes "username"))
  auth ← resolve_password environ args config env (or_env name (λ e. e.username) env)
  target_of args env config transport (or_env name (λ e. e.username) env) auth

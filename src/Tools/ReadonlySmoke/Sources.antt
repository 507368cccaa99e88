-- ===== src/Tools/ReadonlySmoke/Sources.antt =====
-- Where the settings of tools/cli_tool_readonly_smoke.py come from: the arguments, a target in a YAML
-- file, or the package `config_loader` of another project, which may not be there.
use device_cli_tool.Base.{
  ℕ, Bool, false, not, ◌&&◌, ◌||◌, ◌==◌, Option, none, some, List, suc, if◌then◌else◌, is_empty,
  Error, Result, ok, err, system_exit, config_error, is_os_error, raise_if, ◌>>=◌, ◌>>◌,
}
use device_cli_tool.Text.{Str, codes, str_eq, upper}
use device_cli_tool.Netconf.Model.{Seconds, fraction}
use device_cli_tool.Devices.Catalog.{
  Yaml, null, boolean, text, number, scalar, mapping, Entries, no_entries, entry, get_value,
  has_key,
}
use device_cli_tool.Tools.ReadonlySmoke.Settings.{get_or}

pub record Args : Type 0 where
  pub transport : Option Str
  pub catalog : Option Str
  pub command_id : Option Str
  pub env_node : Option Str
  pub target_config : Option Str
  pub target : Option Str
  pub auth_profile : Str
  pub node_key : Option Str
  pub host : Option Str
  pub username : Option Str
  pub password_env : Option Str
  pub param : List Str
  pub ssh_timeout : Option Seconds
  pub ssh_connect_attempts : Option ℕ
  pub ssh_retry_backoff_seconds : Option Seconds
  pub known_hosts : Option Str
  pub allow_unknown_host_key : Bool
  pub serial_port : Option Str
  pub baudrate : Option ℕ
  pub serial_timeout : Option Seconds
  pub telnet_port : Option ℕ
  pub telnet_timeout : Option Seconds
  pub allow_insecure_telnet : Bool
  pub include_output : Bool
  pub max_output_chars : ℕ
  pub report_dir : Option Str

-- What the tool reads of an `EnvironmentConfig`. Without `node_target` it is an empty mapping.
pub record EnvironmentConfig : Type 0 where
  pub node_key : Str
  pub device_ip : Str
  pub username : Str
  pub password : Str
  pub auth_profile : Str
  pub node_target : Yaml

-- What lies outside: the environment variables, the files, PyYAML, `float`, and `load_environment` where
-- there is one.
pub record Outside : Type 0 where
  pub environ : Str → Option Str
  pub read_text : Str → Result Str
  pub read_yaml : Str → Result Yaml
  pub float_of : Yaml → Result Seconds
  pub load_environment : Option (Str → Str → Result EnvironmentConfig)

-- `bool(value)` of an argument.
abbrev pub given : Option Str → Bool
given none = false
given (some s) = not (is_empty s)

abbrev pub or_empty : Option Str → Str
or_empty none = codes ""
or_empty (some s) = s

abbrev pub cli_mapping : Yaml → Result Entries
cli_mapping null = ok no_entries
cli_mapping (mapping entries) = ok entries
cli_mapping _ = err (system_exit "node_target.cli must be a mapping")

-- `_node_cli_config`
abbrev pub node_cli_of : Yaml → Result Entries
node_cli_of (mapping entries) = cli_mapping (get_or (codes "cli") entries (mapping no_entries))
node_cli_of _ = err (system_exit "config_loader EnvironmentConfig.node_target must be a mapping")

unfoldable pub node_cli_config : Option EnvironmentConfig → Result Entries
node_cli_config none = ok no_entries
node_cli_config (some env) = node_cli_of env.node_target

-- `except OSError`
abbrev pub exit_on_os_error {ℓ} : {A : Type ℓ} → Result A → Result A
exit_on_os_error (ok a) = ok a
exit_on_os_error (err e) =
    if is_os_error e then err (system_exit "cannot read target config") else err e

abbrev one_seconds : Result Seconds → Bool
one_seconds (ok (fraction n d)) = n == suc d
one_seconds _ = false

-- `resolved.setdefault("node_key", target_key)`, of a key that is not there at the end.
abbrev pub append_entry : Entries → Str → Str → Entries
append_entry no_entries key value = entry (text key) (text value) no_entries
append_entry (entry k v entries) key value = entry k v (append_entry entries key value)

abbrev pub set_default : Entries → Str → Str → Entries
set_default entries key value =
    if has_key key entries then entries else append_entry entries key value

abbrev pub mapping_or : Error → Yaml → Result Entries
mapping_or e (mapping entries) = ok entries
mapping_or e _ = err e

module _ (out : Outside) where
  -- `value == 1`: True and 1.0 are equal to 1.
  abbrev pub is_one : Yaml → Bool
  is_one (number n) = n == 1
  is_one (boolean b) = b
  is_one (scalar k) = one_seconds (out.float_of (scalar k))
  is_one _ = false

  abbrev pub versioned : Yaml → Result Entries
  versioned (mapping entries) =
      if is_one (get_value (codes "version") entries)
      then ok entries
      else err (system_exit "target config must declare version: 1")
  versioned _ = err (system_exit "target config must declare version: 1")

  abbrev pub read_config : Str → Result Yaml
  read_config path = do content ← out.read_text path; out.read_yaml content

  -- `_load_portable_target`
  unfoldable pub load_portable_target : Str → Str → Result Entries
  load_portable_target path target_key = do
    data' ← exit_on_os_error (read_config path)
    config ← versioned data'
    targets ←
        mapping_or (system_exit "targets must be a mapping") (get_value (codes "targets") config)
    target ← mapping_or (system_exit "target is not defined") (get_value target_key targets)
    ok (set_default target (codes "node_key") target_key)

  -- A node that is not known is tried in upper case.
  abbrev pub or_upper :
      (Str → Str → Result EnvironmentConfig)
      → Str
      → Str
      → Result EnvironmentConfig
      → Result EnvironmentConfig
  or_upper load node auth_profile (err (config_error m)) =
      if str_eq (upper node) node then err (config_error m) else load (upper node) auth_profile
  or_upper load node auth_profile r = r

  abbrev pub load_with :
      Option (Str → Str → Result EnvironmentConfig) → Str → Str → Result EnvironmentConfig
  load_with none node auth_profile = err (system_exit "--env-node requires a config_loader package")
  load_with (some load) node auth_profile = or_upper load node auth_profile (load node auth_profile)

  -- `_load_environment_for_node`
  unfoldable pub load_environment_for_node : Str → Str → Result EnvironmentConfig
  load_environment_for_node node auth_profile = load_with out.load_environment node auth_profile

  abbrev pub from_node : Args → Result (Option EnvironmentConfig × Entries)
  from_node args = if not (given args.env_node) then ok (none, no_entries) else do
    env ← load_environment_for_node (or_empty args.env_node) args.auth_profile
    config ← node_cli_config (some env)
    ok (some env, config)

  -- `_resolve_config_source`
  unfoldable pub resolve_config_source : Args → Result (Option EnvironmentConfig × Entries)
  resolve_config_source args = do
    raise_if (given args.env_node && (given args.target_config || given args.target))
        (system_exit "--env-node cannot be combined with --target-config or --target")
    raise_if
        (given args.target_config && not (given args.target)
          || not (given args.target_config) && given args.target)
        (system_exit "--target-config and --target must be provided together")
    if not (given args.target_config) then from_node args else do
      config ← load_portable_target (or_empty args.target_config) (or_empty args.target)
      ok (none, config)

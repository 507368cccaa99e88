-- ===== src/Tools/ReadonlySmoke/Config.antt =====
-- `_resolve_smoke_config` and `_build_transport` of tools/cli_tool_readonly_smoke.py, with the fields of
-- `SshCliTransport` of cli_tool/transport/ssh_adapter.py.
use device_cli_tool.Base.{
  ℕ, Bool, true, false, not, ◌&&◌, Option, none, some, ◌∷◌, ltb, if◌then◌else◌, is_empty, Result,
  ok, err, system_exit, raise_if, ◌>>=◌, ◌>>◌,
}
use device_cli_tool.Text.{Str, codes, str_eq, lower}
use device_cli_tool.Transfer.Paths.{PurePath, pure_path}
use device_cli_tool.Netconf.Model.{Seconds, fraction}
use device_cli_tool.Devices.Catalog.{Yaml, Entries, get_value}
use device_cli_tool.Telnet.Options.{TelnetCliTransport}
use device_cli_tool.Serial.{SerialCliTransport}
use device_cli_tool.Tools.ReadonlySmoke.Settings.{
  get_or, string_setting, optional_string, given_or, not_positive, is_negative, float_setting,
  positive_int,
}
use device_cli_tool.Tools.ReadonlySmoke.Sources.{
  Args, EnvironmentConfig, Outside, resolve_config_source,
}
use device_cli_tool.Tools.ReadonlySmoke.Target.{
  Kind, ssh, serial, telnet, SmokeTarget, resolve_target,
}

pub record SmokeRunConfig : Type 0 where
  pub target : SmokeTarget
  pub catalog : PurePath
  pub command_id : Str
  pub ssh_timeout : Seconds
  pub ssh_connect_attempts : ℕ
  pub ssh_retry_backoff_seconds : Seconds
  pub known_hosts_path : Option PurePath
  pub allow_unknown_host_key : Bool
  pub telnet_port : ℕ
  pub telnet_timeout : Seconds
  pub allow_insecure_telnet : Bool
  pub baudrate : ℕ
  pub serial_timeout : Seconds
  pub report_dir : PurePath

abbrev pub is_telnet : Kind → Bool
is_telnet telnet = true
is_telnet _ = false

abbrev pub kind_of : Str → Result Kind
kind_of s =
    if str_eq s (codes "ssh")
    then ok ssh
    else if str_eq s (codes "serial")
    then ok serial
    else if str_eq s (codes "telnet")
    then ok telnet
    else err (system_exit "node_target.cli.transport must be 'ssh', 'serial' or 'telnet'")

abbrev pub path_of : Option Str → Option PurePath
path_of none = none
path_of (some s) = if is_empty s then none else some (pure_path s)

-- The transport, which Telnet is only with the argument that allows it.
unfoldable pub resolve_transport : Args → Entries → Result Kind
resolve_transport args config = do
  name ← string_setting args.transport config (codes "transport") (codes "ssh")
  transport ← kind_of (lower name)
  raise_if (is_telnet transport && not args.allow_insecure_telnet)
      (system_exit "Telnet is plaintext; pass --allow-insecure-telnet for an isolated lab")
  ok transport

-- A value, which is `timeout` where it is missing.
abbrev pub timeout_value : Str → Entries → Yaml
timeout_value key config = get_or key config (get_value (codes "timeout") config)

unfoldable pub resolve_telnet_port : (Yaml → Result Seconds) → Args → Entries → Result ℕ
resolve_telnet_port float_of args config = do
  port ← positive_int float_of args.telnet_port (get_value (codes "telnet_port") config) 23
  raise_if (ltb 65535 port) (system_exit "telnet_port must be between 1 and 65535")
  ok port

module _ (out : Outside) where
  -- One time-out, and one positive number.
  abbrev pub resolve_timeout : Entries → Str → Option Seconds → Result Seconds
  resolve_timeout config key argument =
      float_setting out.float_of not_positive argument (timeout_value key config) (fraction 15 0)

  abbrev pub resolve_count : Entries → Str → Option ℕ → ℕ → Result ℕ
  resolve_count config key argument default =
      positive_int out.float_of argument (get_value key config) default

  -- The pause before a connection is tried again.
  abbrev pub resolve_backoff : Entries → Option Seconds → Result Seconds
  resolve_backoff config argument =
      float_setting out.float_of is_negative argument
        (get_value (codes "ssh_retry_backoff_seconds") config) (fraction 1 0)

  -- `_resolve_smoke_config`, behind the transport.
  unfoldable pub resolve_settings :
      Args → Option EnvironmentConfig → Entries → Kind → Result SmokeRunConfig
  resolve_settings args env config transport = do
    catalog ← string_setting args.catalog config (codes "catalog") (codes "builtin:generic")
    command_id ←
        string_setting args.command_id config (codes "default_command") (codes "show_version")
    ssh_timeout ← resolve_timeout config (codes "ssh_timeout") args.ssh_timeout
    ssh_connect_attempts ←
        resolve_count config (codes "ssh_connect_attempts") args.ssh_connect_attempts 3
    ssh_retry_backoff_seconds ← resolve_backoff config args.ssh_retry_backoff_seconds
    known_hosts ← given_or args.known_hosts (optional_string config (codes "known_hosts"))
    telnet_port ← resolve_telnet_port out.float_of args config
    telnet_timeout ← resolve_timeout config (codes "telnet_timeout") args.telnet_timeout
    serial_timeout ← resolve_timeout config (codes "serial_timeout") args.serial_timeout
    baudrate ← resolve_count config (codes "baudrate") args.baudrate 115200
    report_dir ←
        string_setting args.report_dir config (codes "report_dir") (codes "reports/cli-tool")
    target ← resolve_target out.environ args env config transport
    ok (record {
      target = target;
      catalog = pure_path catalog;
      command_id = command_id;
      ssh_timeout = ssh_timeout;
      ssh_connect_attempts = ssh_connect_attempts;
      ssh_retry_backoff_seconds = ssh_retry_backoff_seconds;
      known_hosts_path = path_of known_hosts;
      allow_unknown_host_key = args.allow_unknown_host_key;
      telnet_port = telnet_port;
      telnet_timeout = telnet_timeout;
      allow_insecure_telnet = args.allow_insecure_telnet;
      baudrate = baudrate;
      serial_timeout = serial_timeout;
      report_dir = pure_path report_dir;
    })

  unfoldable pub resolve_smoke_config : Args → Result SmokeRunConfig
  resolve_smoke_config args = do
    source ← resolve_config_source out args
    transport ← resolve_transport args source.1
    resolve_settings args source.0 source.1 transport

-- `SshCliTransport`
pub record SshCliTransport : Type 0 where
  pub node_key : Str
  pub host : Str
  pub username : Str
  pub password : Str
  pub max_sessions : Option ℕ
  pub ssh_timeout : Seconds
  pub connect_attempts : ℕ
  pub retry_backoff_seconds : Seconds
  pub known_hosts_path : Option PurePath
  pub allow_unknown_host_key : Bool
  pub reuse_sessions : Option Bool

pub data Transport : Type 0 where
  over_serial : SerialCliTransport → Transport
  over_telnet : TelnetCliTransport → Transport
  over_ssh : SshCliTransport → Transport

-- `target.serial_port or target.host`
abbrev pub port_of : SmokeTarget → Str
port_of target = or_host target.serial_port target.host
  where
    or_host : Option Str → Str → Str
    or_host (some (c ∷ s)) host = c ∷ s
    or_host _ host = host

abbrev pub transport_for : Kind → SmokeRunConfig → Transport
transport_for serial c = over_serial (record {
  port = port_of c.target;
  username = c.target.username;
  password = c.target.password;
  baudrate = c.baudrate;
  timeout = c.serial_timeout;
})
transport_for telnet c = over_telnet (record {
  host = c.target.host;
  username = c.target.username;
  password = c.target.password;
  port = c.telnet_port;
  timeout_positive = not (not_positive c.telnet_timeout);
  allow_insecure_telnet = c.allow_insecure_telnet;
})
transport_for ssh c = over_ssh (record {
  node_key = c.target.node_key;
  host = c.target.host;
  username = c.target.username;
  password = c.target.password;
  max_sessions = some 1;
  ssh_timeout = c.ssh_timeout;
  connect_attempts = c.ssh_connect_attempts;
  retry_backoff_seconds = c.ssh_retry_backoff_seconds;
  known_hosts_path = c.known_hosts_path;
  allow_unknown_host_key = c.allow_unknown_host_key;
  reuse_sessions = some false;
})

-- `_build_transport`
unfoldable pub build_transport : SmokeRunConfig → Transport
build_transport c = transport_for c.target.transport c

-- ===== src/Tools/SmokeTests.antt =====
-- A run of tools/cli_tool_readonly_smoke.py on a device that answers, and settings that are refused.
use device_cli_tool.Base.{
  true, false, ◌≡◌, refl, Option, none, some, List, [], ◌∷◌, ◌++◌, if◌then◌else◌, map, Result, ok,
  err, system_exit, value_error, other_error,
}
use device_cli_tool.Base.Exec.{◌>>=◌}
use device_cli_tool.Text.{
  Str, codes, str_eq, strip, lstrip, rstrip, lower, decimal, number_from, split_on, join,
  starts_with, remove_prefix, before_char, after_char,
}
use device_cli_tool.Netconf.Model.{Seconds, no_number, fraction, infinite, not_a_number}
use device_cli_tool.Transfer.Paths.{pure_path, path_text}
use device_cli_tool.Devices.Catalog.{
  Yaml, null, boolean, text, number, scalar, mapping, no_entries, entry, Entries, check_spec,
  string_tuple, command_spec_from_mapping, command_specs_from_mapping, create_catalog, get_spec,
  build_commands, build_expected_tokens,
}
use device_cli_tool.Devices.Loader.{
  build_driver, load_yaml_text, driver_from_mapping, load_driver, load_driver_source,
}
use device_cli_tool.Workflows.Verify.{
  tuple_of_strings, missing_tokens, verify_output_tokens, last_output, verify_cli_outputs,
  dict_keys, run_and_verify, expect_all, run_driver_verify,
}
use device_cli_tool.Tools.ReadonlySmoke.Settings.{
  string_setting, optional_string, given_or, float_setting, positive_int, positive_text,
  not_positive,
}
use device_cli_tool.Tools.ReadonlySmoke.Sources.{
  Args, EnvironmentConfig, Outside, resolve_config_source,
}
use device_cli_tool.Tools.ReadonlySmoke.Target.{
  ssh, resolve_password, resolve_network_target, resolve_target,
}
use device_cli_tool.Tools.ReadonlySmoke.Config.{
  SmokeRunConfig, resolve_transport, resolve_telnet_port, resolve_settings, resolve_smoke_config,
}
use device_cli_tool.Tools.ReadonlySmoke.Command.{parse_params, driver_for}
use device_cli_tool.Tools.ReadonlySmoke.Run.{Devices, Library, prepare_output, run_smoke}
use device_cli_tool.Tools.ReadonlySmoke.Checked.{IsChecked, resolve_smoke_config-IsChecked}
use device_cli_tool.Tools.ReadonlySmoke.Guarded.{Guarded, run_smoke-Guarded}

abbrev dict : List (Str × Yaml) → Entries
dict [] = no_entries
dict ((key, value) ∷ entries) = entry (text key) value (dict entries)

abbrev show_version : Yaml
show_version =
    mapping (dict ((codes "readonly", boolean true) ∷ (codes "command", text (codes "show")) ∷ []))

abbrev catalog_yaml : Yaml
catalog_yaml = mapping (
    dict (
      (codes "family", text (codes "olt"))
      ∷ (codes "model", text (codes "M1"))
      ∷ (codes "commands", mapping (dict ((codes "show_version", show_version) ∷ [])))
      ∷ []))

-- The scalar 0 is infinity, and no other value is a float.
abbrev float_of : Yaml → Result Seconds
float_of (number n) = ok (fraction n 0)
float_of (scalar k) = ok infinite
float_of _ = ok no_number

abbrev outside : Outside
outside = record {
  environ = λ name. if str_eq name (codes "CLI_TOOL_SSH_PASSWORD") then some (codes "pw") else none;
  read_text = λ path. ok path;
  read_yaml = λ content. ok catalog_yaml;
  float_of = float_of;
  load_environment = none;
}

abbrev library : Library
library = record {
  yaml_str = λ v. [];
  read_builtin = λ name. err (value_error "no resource");
  format_map = λ params template. ok template;
  other_word = λ c. false;
}

abbrev args : Option Str → Args
args transport = record {
  transport = transport;
  catalog = some (codes "olt.yaml");
  command_id = none;
  env_node = none;
  target_config = none;
  target = none;
  auth_profile = codes "default";
  node_key = some (codes "n1");
  host = some (codes "h1");
  username = some (codes "u1");
  password_env = none;
  param = codes "slot=1" ∷ [];
  ssh_timeout = none;
  ssh_connect_attempts = none;
  ssh_retry_backoff_seconds = none;
  known_hosts = none;
  allow_unknown_host_key = false;
  serial_port = none;
  baudrate = none;
  serial_timeout = none;
  telnet_port = none;
  telnet_timeout = none;
  allow_insecure_telnet = false;
  include_output = false;
  max_output_chars = 20000;
  report_dir = none;
}

abbrev config : SmokeRunConfig
config = record {
  target = record {
    node_key = codes "n1";
    host = codes "h1";
    username = codes "u1";
    password = codes "pw";
    auth_source = codes "env:CLI_TOOL_SSH_PASSWORD";
    transport = ssh;
    serial_port = none;
  };
  catalog = record { root = []; names = codes "olt.yaml" ∷ [] };
  command_id = codes "show_version";
  ssh_timeout = fraction 15 0;
  ssh_connect_attempts = 3;
  ssh_retry_backoff_seconds = fraction 1 0;
  known_hosts_path = none;
  allow_unknown_host_key = false;
  telnet_port = 23;
  telnet_timeout = fraction 15 0;
  allow_insecure_telnet = false;
  baudrate = 115200;
  serial_timeout = fraction 15 0;
  report_dir = record { root = []; names = codes "reports" ∷ codes "cli-tool" ∷ [] };
}

config-resolved : resolve_smoke_config outside (args none) ≡ ok config
unfolding resolve_smoke_config resolve_config_source resolve_transport resolve_settings
    string_setting optional_string given_or float_setting positive_int resolve_telnet_port
    resolve_target resolve_password resolve_network_target pure_path split_on strip lstrip rstrip
    lower
config-resolved = refl

-- The devices keep the commands that they were sent.
abbrev devices : Devices
devices = record {
  State = List Str;
  run_commands = λ transport commands s.
      (ok (map (λ c. record { command = c; output = codes "up" }) commands), s ++ commands);
}

run_smoke-ssh :
    run_smoke outside library devices (args none) []
    ≡ (ok (record { exit_code = 0; outputs = [] }), codes "show" ∷ [])
unfolding run_smoke resolve_smoke_config resolve_config_source resolve_transport resolve_settings
    string_setting optional_string given_or float_setting positive_int resolve_telnet_port
    resolve_target resolve_password resolve_network_target pure_path path_text split_on strip lstrip
    rstrip lower join load_driver_source load_driver load_yaml_text driver_from_mapping build_driver
    create_catalog command_specs_from_mapping command_spec_from_mapping string_tuple check_spec
    starts_with remove_prefix parse_params before_char after_char run_driver_verify driver_for
    get_spec build_commands build_expected_tokens run_and_verify expect_all dict_keys
    verify_cli_outputs verify_output_tokens tuple_of_strings missing_tokens last_output
    prepare_output ◌>>=◌
run_smoke-ssh = refl

-- Telnet without its flag.
telnet-refused : run_smoke outside library devices (args (some (codes " Telnet "))) [] ≡ (
  err (system_exit "Telnet is plaintext; pass --allow-insecure-telnet for an isolated lab"),
  [],
)
unfolding run_smoke resolve_smoke_config resolve_config_source resolve_transport string_setting
    strip lstrip rstrip lower ◌>>=◌
telnet-refused = refl

-- Numbers that are read as the program reads them.
texts_as_numbers :
    (positive_int float_of none (text (codes " 22 ")) 3 ≡ ok 22)
    × (positive_int float_of none (text (codes "022")) 3
        ≡ err (system_exit "must be a positive integer"))
    × (positive_int float_of none (scalar 0) 3
        ≡ err (other_error "cannot convert float infinity to integer"))
unfolding positive_int positive_text strip lstrip rstrip decimal number_from
texts_as_numbers = (refl, refl, refl)

-- A time-out that is not a number passes.
nan-passes :
    float_setting float_of not_positive (some not_a_number) null (fraction 15 0) ≡ ok not_a_number
unfolding float_setting
nan-passes = refl

resolve_smoke_config-IsChecked_example :
    (env : Option EnvironmentConfig) × (entries : Entries) × (resolve_config_source outside
        (args none)
      ≡ ok (env, entries))
    × IsChecked outside (args none) env config
resolve_smoke_config-IsChecked_example =
    resolve_smoke_config-IsChecked outside (args none) config config-resolved

run_smoke-Guarded_example :
    Guarded outside library devices
      (args none)
      []
      (run_smoke outside library devices (args none) [])
run_smoke-Guarded_example = run_smoke-Guarded outside library devices (args none) []

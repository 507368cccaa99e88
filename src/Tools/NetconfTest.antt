-- ===== src/Tools/NetconfTest.antt =====
-- The arguments of tools/cli_tool_netconf_test.py, and `_validate_args`. A number of `argparse` is a value of
-- Seconds where it is a float; a port or a limit below 0 is refused as 0 is.
pub mod Validated
pub mod Run
pub mod Permitted
use device_cli_tool.Base.{
  ℕ, suc, ◌*◌, ◌%◌, Bool, true, false, not, ◌&&◌, ◌||◌, Option, none, some, [], ◌∷◌, ◌==◌, ltb, leb,
  if◌then◌else◌, is_empty, is_none, Result, ok, err, system_exit,
}
use device_cli_tool.Text.{Str}
use device_cli_tool.Netconf.Model.{Seconds, no_number, negative, fraction, infinite, not_a_number}

-- `OPERATIONS`
pub data Operation : Type 0 where
  only_connect read_state read_config edit : Operation

pub record Args : Type 0 where
  pub operation : Operation
  pub host : Str
  pub port : ℕ
  pub timeout_positive : Bool
  pub max_output_chars : ℕ
  pub username : Option Str
  pub password_env : Str
  pub allow_unknown_host_key : Bool
  pub host_key_fingerprint : Option Str
  pub include_output : Bool
  pub node_key : Option Str
  pub confirm_node : Option Str
  pub confirm_host : Option Str
  pub run_mutating : Bool
  pub edit_config_file : Option Str
  pub finalize_commit : Bool
  pub confirm_timeout_seconds : Option Seconds
  pub verify_filter_file : Option Str
  pub datastore : Option Str
  pub filter_file : Option Str

-- The truth of an option's text.
abbrev pub given : Option Str → Bool
given none = false
given (some s) = not (is_empty s)

abbrev pub is_edit : Operation → Bool
is_edit edit = true
is_edit _ = false

abbrev pub is_read : Operation → Bool
is_read read_state = true
is_read read_config = true
is_read _ = false

-- `MIN_CONFIRM_TIMEOUT <= t <= MAX_CONFIRM_TIMEOUT`, and `t.is_integer()`
abbrev pub in_bounds : Seconds → Bool
in_bounds (fraction n d) = leb (5 * suc d) n && leb n (600 * suc d)
in_bounds _ = false

abbrev pub is_integer : Seconds → Bool
is_integer (fraction n d) = n % suc d == 0
is_integer _ = false

abbrev pub edit_option : Args → Bool
edit_option a =
    given a.confirm_node
    || given a.confirm_host
    || a.run_mutating
    || given a.edit_config_file
    || a.finalize_commit
    || not (is_none a.confirm_timeout_seconds)
    || given a.verify_filter_file

unfoldable pub validate_timeout : Option Seconds → Result (Unit {0})
validate_timeout none = ok tt
validate_timeout (some t) =
    if not (in_bounds t)
    then err (system_exit "--confirm-timeout-seconds must be between 5 and 600")
    else if not (is_integer t)
    then err (system_exit "--confirm-timeout-seconds must be a whole number of seconds")
    else ok tt

unfoldable pub validate_edit : Args → Result (Unit {0})
validate_edit a =
    if not
      (given a.node_key && given a.confirm_node && given a.confirm_host && given a.edit_config_file)
    then err (
        system_exit
          "edit-config requires --node-key, --confirm-node, --confirm-host and --edit-config-file")
    else if not a.run_mutating
        && (a.finalize_commit
            || not (is_none a.confirm_timeout_seconds)
            || given a.verify_filter_file)
    then err (
        system_exit
          "--finalize-commit/--confirm-timeout-seconds/--verify-filter-file require --run-mutating")
    else if a.run_mutating && not (given a.username)
    then err (system_exit "--run-mutating requires --username to connect")
    else validate_timeout a.confirm_timeout_seconds

unfoldable pub validate_args : Args → Result (Unit {0})
validate_args a =
    if ltb a.port 1 || ltb 65535 a.port
    then err (system_exit "--port must be between 1 and 65535")
    else if not a.timeout_positive
    then err (system_exit "--timeout must be greater than 0")
    else if ltb a.max_output_chars 1
    then err (system_exit "--max-output-chars must be greater than 0")
    else if not (is_edit a.operation) && edit_option a
    then err (system_exit "the options of edit-config are only valid for edit-config")
    else if is_edit a.operation && not (is_none a.datastore)
    then err (system_exit "--datastore is not valid for edit-config")
    else if not (is_read a.operation) && given a.filter_file
    then err (system_exit "--filter-file is only valid for get/get-config")
    else if is_edit a.operation
    then validate_edit a
    else if not (given a.username)
    then err (system_exit "--username is required")
    else ok tt

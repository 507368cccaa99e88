-- ===== src/Tools/ReadonlySmoke/Command.antt =====
-- The command of tools/cli_tool_readonly_smoke.py: its parameters, and the driver that knows it.
use device_cli_tool.Base.{
  not, List, [], ◌∷◌, if◌then◌else◌, is_empty, Result, ok, system_exit, raise_if, ◌>>=◌, ◌>>◌,
}
use device_cli_tool.Text.{Str, str_eq, strip, has_char, before_char, after_char}
use device_cli_tool.Devices.Catalog.{CommandSpec, get_spec, build_commands, build_expected_tokens}
use device_cli_tool.Workflows.Verify.{Driver}

abbrev pub put : Str → Str → List (Str × Str) → List (Str × Str)
put key value [] = (key, value) ∷ []
put key value ((k, v) ∷ params) =
    let rest = put key value params in if str_eq k key then (k, value) ∷ params else (k, v) ∷ rest

-- One round of the loop of `_parse_params`.
abbrev pub parse_param : Str → Result (Str × Str)
parse_param value = do
  raise_if (not (has_char b'=' value)) (system_exit "invalid --param value, expected key=value")
  raise_if (is_empty (strip (before_char b'=' value)))
      (system_exit "invalid --param value, empty key")
  ok (strip (before_char b'=' value), after_char b'=' value)

abbrev pub parse_into : List (Str × Str) → List Str → Result (List (Str × Str))
parse_into params [] = ok params
parse_into params (value ∷ values) = do
  param ← parse_param value
  parse_into (put param.0 param.1 params) values

-- `_parse_params`
unfoldable pub parse_params : List Str → Result (List (Str × Str))
parse_params values = parse_into [] values

-- What a driver with this catalog answers on a command. `format` is `str.format_map`.
unfoldable pub driver_for : (Str → Result Str) → List CommandSpec → Str → Driver
driver_for format catalog command_id = record {
  readonly = get_spec catalog command_id >>= λ spec. ok (spec.readonly);
  build_commands = build_commands format catalog command_id;
  expected_tokens = build_expected_tokens format catalog command_id;
}

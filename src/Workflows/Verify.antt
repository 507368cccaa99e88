-- ===== src/Workflows/Verify.antt =====
-- cli_tool/models.py, cli_tool/parsers/text_tokens.py, and cli_tool/workflows/verify.py and
-- driver_verify.py. A dict is a list of pairs with different keys.
pub mod Passed
pub mod Runs
use device_cli_tool.Base.{
  Bool, true, false, not, ◌&&◌, Option, none, some, List, [], ◌∷◌, if◌then◌else◌, is_empty, all,
  map, Result, raise_if, value_error,
}
use device_cli_tool.Base.Exec.{Exec, pure, lift, ◌>>=◌, ◌>>◌}
use device_cli_tool.Text.{Str, codes, str_eq, strip, casefold, contains, normalize_newlines}

pub record CliCommandOutput : Type 0 where
  pub command : Str
  pub output : Str

pub record CliCommandVerification : Type 0 where
  pub command : Str
  pub output : Str
  pub expected_tokens : List Str
  pub missing_tokens : List Str
  pub validation_errors : List Str

abbrev pub command_passed : CliCommandVerification → Bool
command_passed v = is_empty v.missing_tokens && is_empty v.validation_errors

-- `CliVerifyResult`, with `passed`.
abbrev pub CliVerifyResult : Type 0
CliVerifyResult = List CliCommandVerification

abbrev pub passed : CliVerifyResult → Bool
passed verifications = all command_passed verifications

-- `tuple_of_strings`, of strings.
unfoldable pub tuple_of_strings : List Str → List Str
tuple_of_strings [] = []
tuple_of_strings (value ∷ values) =
    let rest = tuple_of_strings values in if is_empty value then rest else value ∷ rest

-- The output and a token as they are compared.
abbrev pub comparable : Bool → Str → Str
comparable case_sensitive s =
    if case_sensitive then normalize_newlines s else casefold (normalize_newlines s)

unfoldable pub missing_tokens : Str → List Str → Bool → List Str
missing_tokens output [] case_sensitive = []
missing_tokens output (token ∷ tokens) case_sensitive =
    let rest = missing_tokens output tokens case_sensitive in
    if is_empty token
    then rest
    else if contains (comparable case_sensitive output) (comparable case_sensitive token)
    then rest
    else token ∷ rest

unfoldable pub verify_output_tokens : Str → Str → List Str → Bool → CliCommandVerification
verify_output_tokens command output expected_tokens case_sensitive =
    let expected = tuple_of_strings expected_tokens in
    record {
      command = command;
      output = output;
      expected_tokens = expected;
      missing_tokens = missing_tokens output expected case_sensitive;
      validation_errors = if is_empty (strip output) then codes "CLI output is empty" ∷ [] else [];
    }

-- `_coerce_output_by_command` and `get(command, "")`: of outputs of one command, the last counts.
abbrev pub or_else : Option Str → Str → Str
or_else none output = output
or_else (some later) output = later

unfoldable pub last_output : List CliCommandOutput → Str → Option Str
last_output [] command = none
last_output (item ∷ items) command =
    let later = last_output items command in
    if str_eq item.command command then some (or_else later item.output) else later

unfoldable pub verify_cli_outputs :
    List CliCommandOutput → List (Str × List Str) → Bool → CliVerifyResult
verify_cli_outputs outputs [] case_sensitive = []
verify_cli_outputs outputs ((command, expected_tokens) ∷ expected) case_sensitive =
    verify_output_tokens command (or_else (last_output outputs command) []) expected_tokens
      case_sensitive
    ∷ verify_cli_outputs outputs expected case_sensitive

abbrev pub without : Str → List Str → List Str
without key [] = []
without key (s ∷ keys) = let rest = without key keys in if str_eq key s then rest else s ∷ rest

unfoldable pub dict_keys : List Str → List Str
dict_keys [] = []
dict_keys (key ∷ keys) = key ∷ without key (dict_keys keys)

-- `CliTransport` and `DeviceDriver`, over the state of the device.
pub record Transport : Type 1 where
  pub State : Type 0
  pub run_commands : List Str → Exec State (List CliCommandOutput)

pub record Driver : Type 0 where
  pub readonly : Result Bool
  pub build_commands : Result (List Str)
  pub expected_tokens : Result (List Str)

module _ (T : Transport) where
  unfoldable pub run_and_verify :
      List Str → List (Str × List Str) → Bool → Exec T.State CliVerifyResult
  run_and_verify commands expected_by_command case_sensitive = do
    outputs ← T.run_commands commands
    pure (verify_cli_outputs outputs expected_by_command case_sensitive)

  -- `{command: expected_tokens for command in commands}`: a command that comes again is no new key.
  unfoldable pub expect_all : List Str → List Str → List (Str × List Str)
  expect_all commands expected_tokens =
      map (λ command. (command, expected_tokens)) (dict_keys commands)

  unfoldable pub run_driver_verify : Driver → Bool → Exec T.State CliVerifyResult
  run_driver_verify driver case_sensitive = do
    readonly ← lift driver.readonly
    lift (raise_if (not readonly) (value_error "not readonly; use a protected configure workflow"))
    commands ← lift driver.build_commands
    expected_tokens ← lift driver.expected_tokens
    run_and_verify commands (expect_all commands expected_tokens) case_sensitive

-- ===== src/Tools/ReadonlySmoke/Run.antt =====
-- `run_smoke` of tools/cli_tool_readonly_smoke.py: the driver, the transport, the command and the exit
-- code. Of the report that is printed and written only the outputs are here.
use device_cli_tool.Base.{
  ℕ, Bool, false, not, List, [], ◌++◌, length, take, ltb, if◌then◌else◌, map, Result, ok, err,
  system_exit,
}
use device_cli_tool.Base.Exec.{Exec, pure, lift, ◌>>=◌}
use device_cli_tool.Text.{Str, codes, decimal}
use device_cli_tool.Transfer.Paths.{path_text}
use device_cli_tool.Devices.Catalog.{Yaml}
use device_cli_tool.Devices.Loader.{load_driver_source}
use device_cli_tool.Workflows.Verify.{CliCommandOutput, CliVerifyResult, passed, run_driver_verify}
use device_cli_tool.Reporting.Patterns.{redact_text}
use device_cli_tool.Tools.ReadonlySmoke.Sources.{Args, Outside}
use device_cli_tool.Tools.ReadonlySmoke.Config.{Transport, resolve_smoke_config, build_transport}
use device_cli_tool.Tools.ReadonlySmoke.Command.{parse_params, driver_for}

-- The three transports, over the state of the devices.
pub record Devices : Type 1 where
  pub State : Type 0
  pub run_commands : Transport → List Str → Exec State (List CliCommandOutput)

-- The rest of what lies outside: `str` of a YAML value, the catalogs of the package, `str.format_map`
-- and the word characters of Unicode.
pub record Library : Type 0 where
  pub yaml_str : Yaml → Str
  pub read_builtin : Str → Result Str
  pub format_map : List (Str × Str) → Str → Result Str
  pub other_word : ℕ → Bool

-- What is kept of an output in a report.
abbrev pub kept_output : ℕ → Str → Str
kept_output max_output_chars output =
    if ltb max_output_chars (length output)
    then take max_output_chars output
      ++ (codes "\n... [truncated after "
          ++ (decimal max_output_chars ++ codes " redacted characters]"))
    else output

pub record Report : Type 0 where
  pub exit_code : ℕ
  pub outputs : List (Str × Str)

module _ (out : Outside) (lib : Library) where
  -- `_prepare_output_by_command`
  unfoldable pub prepare_output : Bool → ℕ → CliVerifyResult → Result (List (Str × Str))
  prepare_output include_output max_output_chars result =
      if not include_output
      then ok []
      else if ltb max_output_chars 1
      then err (system_exit "--max-output-chars must be greater than 0")
      else ok (
          map (λ v. (v.command, kept_output max_output_chars (redact_text lib.other_word v.output)))
            result)

  module _ (D : Devices) where
    -- `run_smoke`
    unfoldable pub run_smoke : Args → Exec D.State Report
    run_smoke args = do
      config ← lift (resolve_smoke_config out args)
      driver ← lift (
          load_driver_source out.read_yaml lib.yaml_str out.read_text lib.read_builtin
            (path_text config.catalog))
      params ← lift (parse_params args.param)
      result ←
          run_driver_verify
            (record { State = D.State; run_commands = D.run_commands (build_transport config) })
            (driver_for (lib.format_map params) driver.catalog config.command_id) false
      outputs ← lift (prepare_output args.include_output args.max_output_chars result)
      pure (record { exit_code = if passed result then 0 else 1; outputs = outputs })

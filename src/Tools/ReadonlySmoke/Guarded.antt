-- ===== src/Tools/ReadonlySmoke/Guarded.antt =====
-- What a run of tools/cli_tool_readonly_smoke.py does to the devices.
use device_cli_tool.Base.{
  true, false, ◌≡◌, refl, ◌⊎◌, inl, inr, List, if◌then◌else◌, Result, ok, err, IsErr, bind_ok,
}
use device_cli_tool.Base.Exec.{Exec, pure, lift, continue, ◌>>=◌}
use device_cli_tool.Base.Exec.Triples.{lift_cases}
use device_cli_tool.Text.{Str}
use device_cli_tool.Transfer.Paths.{path_text}
use device_cli_tool.Devices.Catalog.{CommandSpec, get_spec, build_commands, build_expected_tokens}
use device_cli_tool.Devices.Loader.{Driver, load_driver_source}
use device_cli_tool.Workflows.Verify as Verify
use device_cli_tool.Workflows.Verify.{
  CliCommandOutput, CliVerifyResult, Transport, passed, verify_cli_outputs, expect_all,
  run_and_verify, run_driver_verify,
}
use device_cli_tool.Workflows.Verify.Runs.{Runs, driver-Runs}
use device_cli_tool.Tools.ReadonlySmoke.Sources.{Args, Outside}
use device_cli_tool.Tools.ReadonlySmoke.Config.{
  SmokeRunConfig, resolve_smoke_config, build_transport,
}
use device_cli_tool.Tools.ReadonlySmoke.Command.{parse_params, driver_for}
use device_cli_tool.Tools.ReadonlySmoke.Run.{Devices, Library, Report, prepare_output, run_smoke}

module _ (out : Outside) (lib : Library) (D : Devices) (args : Args) where
  -- The transport of the workflow.
  abbrev pub over : SmokeRunConfig → Transport
  over config = record { State = D.State; run_commands = D.run_commands (build_transport config) }

  -- The commands of one readonly command of the catalog are run, once, on the transport that the
  -- configuration builds. A report has exit code 0 if the outputs pass, and 1 if not.
  pub record Sent (s : D.State) (end : Result Report × D.State) : Type 0 where
    pub config : SmokeRunConfig
    pub resolved : resolve_smoke_config out args ≡ ok config
    pub driver : Driver
    pub loaded :
        load_driver_source out.read_yaml lib.yaml_str out.read_text lib.read_builtin
          (path_text config.catalog)
        ≡ ok driver
    pub params : List (Str × Str)
    pub parsed : parse_params args.param ≡ ok params
    pub spec : CommandSpec
    pub found : get_spec driver.catalog config.command_id ≡ ok spec
    pub readonly : spec.readonly ≡ true
    pub commands : List Str
    pub tokens : List Str
    pub built :
        build_commands (lib.format_map params) driver.catalog config.command_id ≡ ok commands
    pub expected :
        build_expected_tokens (lib.format_map params) driver.catalog config.command_id ≡ ok tokens
    pub sent : end.1 ≡ (D.run_commands (build_transport config) commands s).1
    pub verdict :
        (report : Report)
        → end.0 ≡ ok report
        → (outputs : List CliCommandOutput) × ((D.run_commands
              (build_transport config)
              commands
              s).0
            ≡ ok outputs)
          × (report.exit_code ≡ (
              if passed
                (verify_cli_outputs outputs (expect_all (over config) commands tokens) false)
              then 0
              else 1))

  -- An error without a trace, or a command that is sent.
  abbrev pub Guarded : D.State → Result Report × D.State → Type 0
  Guarded s end = (IsErr end.0 × (end.1 ≡ s)) ⊎ Sent s end

  -- Behind the verification.
  abbrev finish : CliVerifyResult → Exec D.State Report
  finish result =
      lift (prepare_output out lib args.include_output args.max_output_chars result) >>= λ outputs.
      pure (record { exit_code = if passed result then 0 else 1; outputs = outputs })

  -- What `finish` ends with.
  abbrev Finishes : CliVerifyResult → D.State → Result Report × D.State → Type 0
  Finishes result s end =
      (end.1 ≡ s)
      × ((report : Report)
          → end.0 ≡ ok report
          → report.exit_code ≡ (if passed result then 0 else 1))

  finish-Finishes : (result : CliVerifyResult) (s : D.State) → Finishes result s (finish result s)
  unfolding ◌>>=◌
  finish-Finishes result s =
      lift_cases (Finishes result s)
        (prepare_output out lib args.include_output args.max_output_chars result)
        (λ outputs. pure (record { exit_code = if passed result then 0 else 1; outputs = outputs }))
        s (λ e. (refl, λ report h. absurd cc)) (λ outputs _. (refl, λ report h. cc))

  error_lem :
      (s : D.State) (q : Result CliVerifyResult × D.State)
      → IsErr q.0 × (q.1 ≡ s)
      → IsErr (continue q.0 finish q.1).0 × ((continue q.0 finish q.1).1 ≡ s)
  error_lem s (ok result, s') (h, e) = elim h [ ]
  error_lem s (err e, s') (h, same) = (tt, same)

  module _ (expected : List (Str × List Str)) where
    abbrev verified : List CliCommandOutput → Exec D.State CliVerifyResult
    verified outputs = pure (verify_cli_outputs outputs expected false)

    ran_lem :
        (q : Result (List CliCommandOutput) × D.State)
        → let (r, s') = continue q.0 verified q.1 in
          let end = continue r finish s' in
          (end.1 ≡ q.1)
          × ((report : Report)
              → end.0 ≡ ok report
              → (outputs : List CliCommandOutput) × (q.0 ≡ ok outputs)
                × (report.exit_code
                    ≡ (if passed (verify_cli_outputs outputs expected false) then 0 else 1)))
    unfolding ◌>>=◌
    ran_lem (ok outputs, s) =
        let (state, codes) = finish-Finishes (verify_cli_outputs outputs expected false) s in
        (state, λ report h. (outputs, refl, codes report h))
    ran_lem (err e, s) = (refl, λ report h. absurd cc)

  module _ (config : SmokeRunConfig) (resolved : resolve_smoke_config out args ≡ ok config)
      (driver : Driver)
      (loaded : load_driver_source out.read_yaml lib.yaml_str out.read_text lib.read_builtin
          (path_text config.catalog)
        ≡ ok driver)
      (params : List (Str × Str)) (parsed : parse_params args.param ≡ ok params) where
    abbrev command : Verify.Driver
    command = driver_for (lib.format_map params) driver.catalog config.command_id

    Runs-Sent :
        (s : D.State) (q : Result CliVerifyResult × D.State)
        → Runs (over config) command false s q
        → Sent s (continue q.0 finish q.1)
    unfolding driver_for run_and_verify ◌>>=◌
    Runs-Sent s q runs =
        let (spec, found, marked) =
          bind_ok (get_spec driver.catalog config.command_id)
            (λ (spec : CommandSpec). ok (spec.readonly)) true runs.readonly in
        let expected = expect_all (over config) runs.commands runs.tokens in
        let (state, verdict) =
          ran_lem expected (D.run_commands (build_transport config) runs.commands s) in
        rw runs.run (record {
          config = config;
          resolved = resolved;
          driver = driver;
          loaded = loaded;
          params = params;
          parsed = parsed;
          spec = spec;
          found = found;
          readonly = cc;
          commands = runs.commands;
          tokens = runs.tokens;
          built = runs.built;
          expected = runs.expected;
          sent = state;
          verdict = verdict;
        })

    command-Guarded :
        (s : D.State) → Guarded s ((run_driver_verify (over config) command false >>= finish) s)
    unfolding ◌>>=◌
    command-Guarded s = elim (driver-Runs (over config) command false s) [
      | inl refused ↦ inl (error_lem s (run_driver_verify (over config) command false s) refused)
      | inr runs ↦ inr (Runs-Sent s (run_driver_verify (over config) command false s) runs)
    ]

-- A run of the tool either raises an error and leaves the devices as they are, or it runs the commands of
-- one catalog entry that is marked readonly, once and with the parameters filled in, on the
-- transport that the resolved configuration describes, and does nothing else to the devices. If it returns a
-- report, the exit code is 0 where the outputs contain all expected tokens and none is blank, and 1
-- otherwise.
pub run_smoke-Guarded :
    (out : Outside) (lib : Library) (D : Devices) (args : Args) (s : D.State)
    → Guarded out lib D args s (run_smoke out lib D args s)
unfolding run_smoke
run_smoke-Guarded out lib D args s =
    lift_cases (Guarded out lib D args s) (resolve_smoke_config out args) _ s (λ e. inl (tt, refl))
      λ config resolved.
        lift_cases (Guarded out lib D args s)
          (load_driver_source out.read_yaml lib.yaml_str out.read_text lib.read_builtin
            (path_text config.catalog))
          _ s (λ e. inl (tt, refl))
          λ driver loaded.
            lift_cases (Guarded out lib D args s) (parse_params args.param) _ s
              (λ e. inl (tt, refl))
              λ params parsed.
                command-Guarded out lib D args config resolved driver loaded params parsed s

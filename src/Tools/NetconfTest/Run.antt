-- ===== src/Tools/NetconfTest/Run.antt =====
-- The runs of tools/cli_tool_netconf_test.py, on the client of Netconf.Client. Of a report its outputs are
-- here, and whether it says that the operation passed.
use device_cli_tool.Base.{
  ℕ, Bool, not, Option, none, some, List, [], ◌∷◌, ◌++◌, ◌-◌, length, take, leb, if◌then◌else◌,
  Error, Result, ok, err, system_exit, value_error, permission_error, netconf_capability,
}
use device_cli_tool.Base.Exec.{Exec, pure, raise, lift, ◌>>=◌, ◌>>◌, try_except}
use device_cli_tool.Text.{Str, codes, decimal}
use device_cli_tool.Netconf.Model.{Seconds, fraction}
use device_cli_tool.Netconf.Session.{Ncclient, World}
use device_cli_tool.Netconf.Client.{Client, connect_test, get_data, get_config_data}
use device_cli_tool.Netconf.Transaction.{StepResult, Request, execute_confirmed_commit}
use device_cli_tool.Reporting.Patterns.{redact_text}
use device_cli_tool.Workflows.NetconfEdit.{
  NetconfEditPlan, build_netconf_edit_plan, assert_dry_run_target_confirmation,
  assert_live_mutation_authorized,
}
use device_cli_tool.Tools.NetconfTest.{
  Operation, only_connect, read_state, Args, is_edit, validate_args,
}

-- The environment variables, the files, the IPv6 literals, and the word characters of Unicode.
pub record Outside : Type 0 where
  pub environ : Str → Option Str
  pub read_text : Str → Result Str
  pub ipv6 : Str → Option Str
  pub other_word : ℕ → Bool

pub data Outcome : Type 0 where
  read_passed read_failed dry_run_ready : Outcome
  executed_finalized executed_transient refused_missing_capability failed : Outcome

pub record Report : Type 0 where
  pub exit_code : ℕ
  pub outcome : Outcome
  pub outputs : List Str

-- `_truncate`
unfoldable pub truncate : Str → ℕ → Str
truncate value max_chars =
    if leb (length value) max_chars
    then value
    else take max_chars value
      ++ (codes "...<truncated " ++ (decimal (length value - max_chars) ++ codes " chars>"))

abbrev pub or_empty : Option Str → Str
or_empty none = []
or_empty (some s) = s

-- `args.datastore or "running"`
abbrev pub datastore_of : Option Str → Str
datastore_of (some (c ∷ s)) = c ∷ s
datastore_of _ = codes "running"

abbrev pub timeout_of : Option Seconds → Seconds
timeout_of none = fraction 30 0
timeout_of (some t) = t

abbrev pub required_password : Option Str → Result Str
required_password (some (c ∷ s)) = ok (c ∷ s)
required_password _ = err (system_exit "missing NETCONF password env var")

abbrev pub client_for : Args → Str → Client
client_for a password = record {
  host = a.host;
  username = or_empty a.username;
  password = password;
  port = a.port;
  timeout_positive = a.timeout_positive;
  allow_unknown_host_key = a.allow_unknown_host_key;
  expected_host_key_fingerprint = a.host_key_fingerprint;
}

abbrev pub request_for : Args → Str → Option Str → Request
request_for a config_xml verify_filter_xml = record {
  config_xml = config_xml;
  verify_filter_xml = verify_filter_xml;
  confirm_timeout = timeout_of a.confirm_timeout_seconds;
  finalize = a.finalize_commit;
  persist = none;
}

-- `NetconfCapabilityError` always names what is missing.
abbrev pub failure : Error → Outcome
failure (netconf_capability m) = refused_missing_capability
failure _ = failed

-- `try: ... except Exception as caught`, and the report on what came back.
unfoldable pub reported :
    {S : Type 0} → (Result (List Str) → Report) → Exec S (List Str) → Exec S Report
reported report action s = let (r, s') = action s in (ok (report r), s')

abbrev pub read_report : Result (List Str) → Report
read_report (ok outputs) = record { exit_code = 0; outcome = read_passed; outputs = outputs }
read_report (err e) = record { exit_code = 1; outcome = read_failed; outputs = [] }

abbrev pub edit_report : Bool → Result (List Str) → Report
edit_report finalize (ok outputs) = record {
  exit_code = 0;
  outcome = if finalize then executed_finalized else executed_transient;
  outputs = outputs;
}
edit_report finalize (err e) = record { exit_code = 1; outcome = failure e; outputs = [] }

-- `except (PermissionError, ValueError)` of `main`.
abbrev pub refused_code : {S : Type 0} → Error → Exec S ℕ
refused_code (permission_error m) = pure 2
refused_code (value_error m) = pure 2
refused_code e = raise e

module _ (out : Outside) where
  -- An XML text, as `redact` and `_truncate` leave it.
  abbrev pub shown : Args → Str → List Str
  shown a xml =
      if a.include_output
      then redact_text out.other_word (truncate xml a.max_output_chars) ∷ []
      else []

  abbrev pub shown_steps : Args → List StepResult → List Str
  shown_steps a [] = []
  shown_steps a (step ∷ steps) = shown a step.xml ++ shown_steps a steps

  -- `Path(name).read_text() if name else None`
  abbrev pub read_optional : Option Str → Result (Option Str)
  read_optional (some (c ∷ s)) = read_some (out.read_text (c ∷ s))
    where
      read_some : Result Str → Result (Option Str)
      read_some (ok content) = ok (some content)
      read_some (err e) = err e
  read_optional _ = ok none

  module _ (N : Ncclient) (key_digest : Str → Str) where
    -- The operation of `_run_readonly`.
    abbrev pub read_call : Args → Client → Option Str → Operation → Exec (World N) (List Str)
    read_call a c filter_xml only_connect = do connect_test N key_digest c; pure []
    read_call a c filter_xml read_state = do
      result ← get_data N key_digest c filter_xml
      pure (shown a result.xml)
    read_call a c filter_xml _ = do
      result ← get_config_data N key_digest c (datastore_of a.datastore) filter_xml
      pure (shown a result.xml)

    -- `_run_readonly`
    unfoldable pub run_readonly : Args → Exec (World N) Report
    run_readonly a = do
      password ← lift (required_password (out.environ a.password_env))
      filter_xml ← lift (read_optional a.filter_file)
      reported read_report (read_call a (client_for a password) filter_xml a.operation)

    -- `_execute_live_edit_config`
    unfoldable pub execute_live_edit_config : Args → Str → Exec (World N) Report
    execute_live_edit_config a config_xml = do
      password ← lift (required_password (out.environ a.password_env))
      verify_filter_xml ← lift (read_optional a.verify_filter_file)
      reported (edit_report a.finalize_commit) (do
        result ←
            execute_confirmed_commit N key_digest (client_for a password)
              (request_for a config_xml verify_filter_xml)
        pure (shown_steps a result.steps))

    unfoldable pub dry_run : Args → NetconfEditPlan → Exec (World N) Report
    dry_run a plan = do
      lift (
          assert_dry_run_target_confirmation out.ipv6 plan (or_empty a.confirm_node)
            (or_empty a.confirm_host))
      pure (record { exit_code = 0; outcome = dry_run_ready; outputs = [] })

    unfoldable pub live : Args → Str → Exec (World N) Report
    live a config_xml = do
      lift (
          assert_live_mutation_authorized out.ipv6 (or_empty a.node_key) a.host
            (or_empty a.confirm_node) (or_empty a.confirm_host) a.run_mutating)
      execute_live_edit_config a config_xml

    -- `_run_edit_config`
    unfoldable pub run_edit_config : Args → Exec (World N) Report
    run_edit_config a = do
      config_xml ← lift (out.read_text (or_empty a.edit_config_file))
      plan ← lift (build_netconf_edit_plan out.ipv6 (or_empty a.node_key) a.host config_xml)
      if not a.run_mutating then dry_run a plan else live a config_xml

    unfoldable pub run : Args → Exec (World N) Report
    run a = do
      lift (validate_args a)
      if is_edit a.operation then run_edit_config a else run_readonly a

    -- `main`, up to the payload that it prints.
    unfoldable pub main : Args → Exec (World N) ℕ
    main a = try_except (do report ← run a; pure (report.exit_code)) refused_code

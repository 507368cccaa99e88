-- ===== src/Tools/ReadonlySmoke/Checked.antt =====
-- What holds of a configuration that `_resolve_smoke_config` of tools/cli_tool_readonly_smoke.py returns.
use mathlib.Core.Path.{subst}
use device_cli_tool.Base.{
  ℕ, ◌<◌, ◌≤◌, Bool, true, false, not, ◌&&◌, ◌≡◌, refl, sym, arith, Option, ltb, Result, ok, Error,
  raise_if, Ensures, Ensures-bind, Ensures-ok,
}
use device_cli_tool.Text.{Str, codes, lower}
use device_cli_tool.Netconf.Model.{Seconds, fraction}
use device_cli_tool.Devices.Catalog.{Yaml, Entries, get_value}
use device_cli_tool.Tools.ReadonlySmoke.Settings.{
  string_setting, optional_string, given_or, not_positive, is_negative, positive_int,
}
use device_cli_tool.Tools.ReadonlySmoke.Sources.{
  Args, EnvironmentConfig, Outside, resolve_config_source,
}
use device_cli_tool.Tools.ReadonlySmoke.Target.{Kind, resolve_target}
use device_cli_tool.Tools.ReadonlySmoke.Config.{
  SmokeRunConfig, is_telnet, kind_of, resolve_transport, timeout_value, resolve_timeout,
  resolve_count, resolve_backoff, resolve_telnet_port, resolve_settings, resolve_smoke_config,
}
use device_cli_tool.Tools.ReadonlySmoke.Bounds.{
  IsPositive, positive_int-IsPositive, float_setting-Passes, AboveZero, NotBelowZero, AboveZero_lem,
  NotBelowZero_lem,
}
use device_cli_tool.Tools.ReadonlySmoke.Credentials.{IsTarget, resolve_target-IsTarget}

abbrev pub IsPort : ℕ → Type 0
IsPort n = (0 < n) × (n ≤ 65535)

pub record IsChecked (out : Outside) (args : Args) (env : Option EnvironmentConfig)
    (c : SmokeRunConfig) : Type 0 where
  pub target : IsTarget out.environ env c.target.transport c.target
  pub telnet_allowed : is_telnet c.target.transport ≡ true → args.allow_insecure_telnet ≡ true
  pub flags_kept :
      (c.allow_unknown_host_key ≡ args.allow_unknown_host_key)
      × (c.allow_insecure_telnet ≡ args.allow_insecure_telnet)
  pub port_range : IsPort c.telnet_port
  pub attempts_given : 0 < c.ssh_connect_attempts
  pub baudrate_given : 0 < c.baudrate
  pub timeouts :
      AboveZero c.ssh_timeout
      × AboveZero c.telnet_timeout
      × AboveZero c.serial_timeout
      × NotBelowZero c.ssh_retry_backoff_seconds

-- Telnet wants its flag.
abbrev Allowed : Args → Kind → Type 0
Allowed args transport = is_telnet transport ≡ true → args.allow_insecure_telnet ≡ true

raise_if_lem : (b : Bool) (e : Error) (u : Unit {0}) → raise_if b e ≡ ok u → b ≡ false
raise_if_lem true e u h = cc
raise_if_lem false e u h = refl

allowed_lem :
    (args : Args) (transport : Kind)
    → (is_telnet transport && not args.allow_insecure_telnet) ≡ false
    → Allowed args transport
allowed_lem args transport h t = ground (arith, h, t)

resolve_transport-Allowed :
    (args : Args) (config : Entries) → Ensures (Allowed args) (resolve_transport args config)
unfolding resolve_transport
resolve_transport-Allowed args config =
    Ensures-bind (Allowed args)
      (string_setting args.transport config (codes "transport") (codes "ssh")) _
      (λ name _. Ensures-bind (Allowed args) (kind_of (lower name)) _ (λ transport _.
        Ensures-bind (Allowed args)
          (raise_if (is_telnet transport && not args.allow_insecure_telnet) _) _
          (λ u h.
            Ensures-ok (Allowed args) transport
              (allowed_lem args transport (raise_if_lem _ _ u h)))))

resolve_telnet_port-IsPort :
    (float_of : Yaml → Result Seconds) (args : Args) (config : Entries)
    → Ensures IsPort (resolve_telnet_port float_of args config)
unfolding resolve_telnet_port
resolve_telnet_port-IsPort float_of args config =
    Ensures-bind IsPort
      (positive_int float_of args.telnet_port (get_value (codes "telnet_port") config) 23) _
      (λ port h. Ensures-bind IsPort (raise_if (ltb 65535 port) _) _ (λ u below.
        let small : ltb 65535 port ≡ false = raise_if_lem _ _ u below in
        Ensures-ok IsPort port (
          positive_int-IsPositive float_of args.telnet_port (get_value (codes "telnet_port") config)
              23 (omega arith) port h,
          ground (arith, small),
        )))

module _ (out : Outside) (args : Args) (env : Option EnvironmentConfig) (config : Entries) where
  timeout_lem :
      (key : Str) (argument : Option Seconds)
      → Ensures AboveZero (resolve_timeout out config key argument)
  timeout_lem key argument t h = AboveZero_lem t (
      float_setting-Passes out.float_of not_positive argument (timeout_value key config)
        (fraction 15 0) refl t h)

  backoff_lem :
      (argument : Option Seconds) → Ensures NotBelowZero (resolve_backoff out config argument)
  backoff_lem argument t h = NotBelowZero_lem t (
      float_setting-Passes out.float_of is_negative argument
        (get_value (codes "ssh_retry_backoff_seconds") config) (fraction 1 0) refl t h)

  count_lem :
      (key : Str) (argument : Option ℕ) (default : ℕ)
      → 0 < default
      → Ensures IsPositive (resolve_count out config key argument default)
  count_lem key argument default =
      positive_int-IsPositive out.float_of argument (get_value key config) default

  abbrev Checked : SmokeRunConfig → Type 0
  Checked c = IsChecked out args env c

  settings-IsChecked :
      (transport : Kind)
      → Allowed args transport
      → Ensures Checked (resolve_settings out args env config transport)
  unfolding resolve_settings
  settings-IsChecked transport allowed =
      Ensures-bind Checked
        (string_setting args.catalog config (codes "catalog") (codes "builtin:generic")) _
        λ catalog _.
          Ensures-bind Checked
            (string_setting args.command_id config (codes "default_command") (codes "show_version"))
            _
            λ id _.
              Ensures-bind Checked
                (resolve_timeout out config (codes "ssh_timeout") args.ssh_timeout) _
                λ ssh h1.
                  Ensures-bind Checked
                    (resolve_count out config (codes "ssh_connect_attempts")
                      args.ssh_connect_attempts 3)
                    _
                    λ attempts h2.
                      Ensures-bind Checked
                        (resolve_backoff out config args.ssh_retry_backoff_seconds) _
                        λ backoff h3.
                          Ensures-bind Checked
                            (given_or args.known_hosts
                              (optional_string config (codes "known_hosts")))
                            _
                            λ hosts _.
                              Ensures-bind Checked (resolve_telnet_port out.float_of args config) _
                                λ port h4.
                                  Ensures-bind Checked
                                    (resolve_timeout out config (codes "telnet_timeout")
                                      args.telnet_timeout)
                                    _
                                    λ telnet h5.
                                      Ensures-bind Checked
                                        (resolve_timeout out config (codes "serial_timeout")
                                          args.serial_timeout)
                                        _
                                        λ serial h6.
                                          Ensures-bind Checked
                                            (resolve_count out config (codes "baudrate")
                                              args.baudrate 115200)
                                            _
                                            λ baudrate h7.
                                              Ensures-bind Checked
                                                (string_setting args.report_dir config
                                                  (codes "report_dir") (codes "reports/cli-tool"))
                                                _
                                                λ report_dir _.
                                                  Ensures-bind Checked
                                                    (resolve_target out.environ args env config
                                                      transport)
                                                    _
                                                    λ target h8.
                                                      let is_target =
                                                        resolve_target-IsTarget out.environ env args
                                                          config transport target h8 in
                                                      Ensures-ok Checked _ (record {
                                                        target =
                                                            subst
                                                            (λ k. IsTarget out.environ env k target)
                                                            (sym is_target.transport_kept)
                                                            is_target;
                                                        telnet_allowed =
                                                            subst (Allowed args)
                                                            (sym is_target.transport_kept) allowed;
                                                        flags_kept = (refl, refl);
                                                        port_range =
                                                            resolve_telnet_port-IsPort out.float_of
                                                            args config port h4;
                                                        attempts_given =
                                                            count_lem _ args.ssh_connect_attempts 3
                                                            (omega arith) attempts h2;
                                                        baudrate_given =
                                                            count_lem _ args.baudrate 115200
                                                            (omega arith) baudrate h7;
                                                        timeouts = (
                                                          timeout_lem _ args.ssh_timeout ssh h1,
                                                          timeout_lem _ args.telnet_timeout telnet
                                                            h5,
                                                          timeout_lem _ args.serial_timeout serial
                                                            h6,
                                                          backoff_lem args.ssh_retry_backoff_seconds
                                                            backoff h3,
                                                        );
                                                      })

-- A configuration that is returned came from one source of settings. Telnet is its transport only with
-- `--allow-insecure-telnet`, and the flags on Telnet and on unknown host keys are those of the arguments. Host and
-- user are not empty. The password is not empty and comes from an environment variable, or it is the
-- one that `config_loader` gave, and then the user is its user too. The Telnet port lies in 1..65535,
-- the attempts and the baud rate are positive, no time-out is 0 or negative, and no pause is negative.
pub resolve_smoke_config-IsChecked :
    (out : Outside) (args : Args) (c : SmokeRunConfig)
    → resolve_smoke_config out args ≡ ok c
    → (env : Option EnvironmentConfig) × (config : Entries) × (resolve_config_source out args
        ≡ ok (env, config))
      × IsChecked out args env c
unfolding resolve_smoke_config
resolve_smoke_config-IsChecked out args =
    Ensures-bind _ (resolve_config_source out args) _ λ (env, config) source.
      Ensures-bind _ (resolve_transport args config) _ λ transport h c checked. (
        env,
        config,
        source,
        settings-IsChecked out args env config transport
            (resolve_transport-Allowed args config transport h) c checked,
      )

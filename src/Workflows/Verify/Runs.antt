-- ===== src/Workflows/Verify/Runs.antt =====
-- What `run_driver_verify` runs.
use device_cli_tool.Base.{Bool, true, false, ◌≡◌, refl, ◌⊎◌, inl, inr, List, Result, ok, err, IsErr}
use device_cli_tool.Base.Exec.{◌>>=◌}
use device_cli_tool.Text.{Str}
use device_cli_tool.Workflows.Verify.{
  CliVerifyResult, Transport, Driver, expect_all, run_and_verify, run_driver_verify,
}

module _ (T : Transport) (driver : Driver) (case_sensitive : Bool) where
  -- The run is that of the commands of a driver that is readonly.
  pub record Runs (s : T.State) (end : Result CliVerifyResult × T.State) : Type 0 where
    pub readonly : driver.readonly ≡ ok true
    pub commands : List Str
    pub tokens : List Str
    pub built : driver.build_commands ≡ ok commands
    pub expected : driver.expected_tokens ≡ ok tokens
    pub run : end ≡ run_and_verify T commands (expect_all T commands tokens) case_sensitive s

  abbrev pub Refused : {A : Type 0} → T.State → Result A × T.State → Type 0
  Refused s end = IsErr end.0 × (end.1 ≡ s)

  -- Either nothing is run, or the commands of the driver.
  pub driver-Runs :
      (s : T.State)
      → Refused s (run_driver_verify T driver case_sensitive s)
        ⊎ Runs s (run_driver_verify T driver case_sensitive s)
  unfolding run_driver_verify ◌>>=◌
  driver-Runs s =
      by_parts driver.readonly driver.build_commands driver.expected_tokens refl refl refl
    where
      by_parts :
          (r : Result Bool) (b t : Result (List Str))
          → driver.readonly ≡ r
          → driver.build_commands ≡ b
          → driver.expected_tokens ≡ t
          → Refused s (run_driver_verify T driver case_sensitive s)
            ⊎ Runs s (run_driver_verify T driver case_sensitive s)
      by_parts (err e) b t hr hb ht = rw hr (inl (tt, refl))
      by_parts (ok false) b t hr hb ht = rw hr (inl (tt, refl))
      by_parts (ok true) (err e) t hr hb ht = rw (hr, hb) (inl (tt, refl))
      by_parts (ok true) (ok commands) (err e) hr hb ht = rw (hr, hb, ht) (inl (tt, refl))
      by_parts (ok true) (ok commands) (ok tokens) hr hb ht = inr (record {
        readonly = hr;
        commands = commands;
        tokens = tokens;
        built = hb;
        expected = ht;
        run = rw (hr, hb, ht) refl;
      })

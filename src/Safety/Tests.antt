-- ===== src/Safety/Tests.antt =====
-- The guards and the plans at concrete inputs.
use device_cli_tool.Base.{
  true, false, Option, none, some, if◌then◌else◌, ◌||◌, List, [], ◌∷◌, ◌≡◌, refl, ◌↔◌, ok, is_ok,
}
use device_cli_tool.Text.{Str, codes, decimal, str_eq}
use device_cli_tool.Safety.IpAddress.{ip_address, ipv4}
use device_cli_tool.Safety.Policy.{
  MutationAuthorization, int, expected_commands, check_allowlist, validate_xpon_mutation_commands,
  validate_device_family, validate_node_key, validate_ip_literal, validate_xpon_target,
}
use device_cli_tool.Safety.Policy.Xpon.{InRange, validate_xpon_iff}
use device_cli_tool.Workflows.XponRemediation.{
  XponRemediationPlan, build_register_method_a_plan, assert_live_execution_unlocked,
}
use device_cli_tool.Workflows.XponRemediation.Locked.{live-locked}

-- Reads the one address ::1, whose long form is 0:0:0:0:0:0:0:1.
abbrev loopback : Str → Option Str
loopback s =
    if str_eq s (codes "::1") || str_eq s (codes "0:0:0:0:0:0:0:1")
    then some (codes "::1")
    else none

ipv4_runs :
    (ipv4 (codes "192.0.2.10") ≡ some (codes "192.0.2.10"))
    × (ipv4 (codes "192.0.02.1") ≡ none)
    × (ipv4 (codes "192.0.2.256") ≡ none)
    × (ipv4 (codes "192.0.2") ≡ none)
unfolding ipv4
ipv4_runs = (refl, refl, refl, refl)

abbrev commands : List Str
commands = expected_commands (int 12) (int 3)

validate_xpon_iff_example :
    (validate_xpon_mutation_commands commands (int 12) (int 3) ≡ ok commands)
    ↔ (InRange (int 12) (int 3) × (commands ≡ expected_commands (int 12) (int 3)))
validate_xpon_iff_example = validate_xpon_iff commands (int 12) (int 3)

abbrev plan : XponRemediationPlan
plan = record {
  device_family = codes "neox";
  node_key = codes "node1";
  host = codes "192.0.2.10";
  slot = int 12;
  port = int 3;
  precheck_commands = codes "show in remote xont unreg" ∷ codes "show in remote xont summary" ∷ [];
  mutation_commands = commands;
  postcheck_commands = codes "show in remote xont unreg" ∷ codes "show in remote xont summary" ∷ [];
  live_execution_status = codes "LOCKED";
}

built :
    build_register_method_a_plan loopback
      (codes "neox")
      (codes "node1")
      (codes "192.0.2.10")
      (int 12)
      (int 3)
    ≡ ok plan
unfolding build_register_method_a_plan validate_device_family validate_node_key validate_ip_literal
    validate_xpon_target validate_xpon_mutation_commands check_allowlist decimal ip_address ipv4
built = refl

abbrev complete : MutationAuthorization
complete = record {
  expected_node = codes "node1";
  expected_host = codes "192.0.2.10";
  confirmed_node = codes "node1";
  confirmed_host = codes "192.0.2.10";
  run_mutating = true;
}

live-locked_example : is_ok (assert_live_execution_unlocked loopback plan complete) ≡ false
live-locked_example =
    live-locked loopback (codes "neox") (codes "node1") (codes "192.0.2.10") (int 12) (int 3) plan
      complete built

long_form : ip_address loopback (codes "0:0:0:0:0:0:0:1") ≡ some (codes "::1")
unfolding ip_address ipv4
long_form = refl

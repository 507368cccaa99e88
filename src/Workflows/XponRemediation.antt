-- ===== src/Workflows/XponRemediation.antt =====
-- cli_tool/workflows/xpon_remediation.py: the plan, which stays locked.
pub mod Locked
use device_cli_tool.Base.{
  String, Bool, true, false, not, List, [], ◌∷◌, ◌++◌, Option, Result, ok, err, permission_error,
  raise_if, ◌>>=◌, ◌>>◌,
}
use device_cli_tool.Text.{Str, codes, str_eq}
use device_cli_tool.Safety.Policy.{
  MutationAuthorization, Number, shown, validate, validate_device_family, validate_node_key,
  validate_ip_literal, validate_xpon_target, validate_xpon_mutation_commands, interface_command,
}

abbrev pub show_unregistered : Str
show_unregistered = codes "show in remote xont unreg"

abbrev pub show_summary : Str
show_summary = codes "show in remote xont summary"

-- The text of the blocker is left out: it is constant.
pub record XponRemediationPlan : Type 0 where
  pub device_family : Str
  pub node_key : Str
  pub host : Str
  pub slot : Number
  pub port : Number
  pub precheck_commands : List Str
  pub mutation_commands : List Str
  pub postcheck_commands : List Str
  pub live_execution_status : Str

unfoldable pub interface : XponRemediationPlan → Str
interface plan = codes "xpon " ++ (shown plan.slot ++ (b'-' ∷ shown plan.port))

abbrev pub register_method_a : Number → Number → List Str
register_method_a slot port =
    codes "configure"
    ∷ interface_command slot port
    ∷ codes "inactive"
    ∷ codes "register-method A"
    ∷ codes "no inactive"
    ∷ codes "exit"
    ∷ []

module _ (ipv6 : Str → Option Str) where
  unfoldable pub build_register_method_a_plan :
      Str → Str → Str → Number → Number → Result XponRemediationPlan
  build_register_method_a_plan device_family node_key host slot port = do
    validate_device_family device_family
    validate_node_key node_key
    normalized_host ← validate_ip_literal ipv6 host
    validate_xpon_target slot port
    mutation_commands ← validate_xpon_mutation_commands (register_method_a slot port) slot port
    ok (record {
      device_family = device_family;
      node_key = node_key;
      host = normalized_host;
      slot = slot;
      port = port;
      precheck_commands = show_unregistered ∷ show_summary ∷ [];
      mutation_commands = mutation_commands;
      postcheck_commands = show_unregistered ∷ show_summary ∷ [];
      live_execution_status = codes "LOCKED";
    })

  unfoldable pub assert_dry_run_target_confirmation :
      XponRemediationPlan → Str → Str → Result (Unit {0})
  assert_dry_run_target_confirmation plan confirmed_node confirmed_host = validate ipv6 (record {
    expected_node = plan.node_key;
    expected_host = plan.host;
    confirmed_node = confirmed_node;
    confirmed_host = confirmed_host;
    run_mutating = true;
  })

  unfoldable pub assert_live_execution_unlocked :
      XponRemediationPlan → MutationAuthorization → Result (Unit {0})
  assert_live_execution_unlocked plan authorization = do
    validate ipv6 authorization
    validate_xpon_mutation_commands plan.mutation_commands plan.slot plan.port
    raise_if (not (str_eq plan.live_execution_status (codes "UNLOCKED")))
        (permission_error "live execution is locked")

-- ===== src/Workflows/NetconfEdit.antt =====
-- cli_tool/workflows/netconf_edit.py: the plan, and the gate in front of a live edit.
pub mod Gate
use device_cli_tool.Base.{
  Bool, true, false, not, List, [], ◌∷◌, Option, Result, ok, err, value_error, raise_if, is_empty,
  ◌>>=◌, ◌>>◌,
}
use device_cli_tool.Text.{Str, codes, strip}
use device_cli_tool.Safety.Policy.{
  MutationAuthorization, validate, validate_node_key, validate_ip_literal,
}

-- The note on live execution is constant and left out.
pub record NetconfEditPlan : Type 0 where
  pub node_key : Str
  pub host : Str
  pub config_xml : Str
  pub live_execution_status : Str

module _ (ipv6 : Str → Option Str) where
  unfoldable pub build_netconf_edit_plan : Str → Str → Str → Result NetconfEditPlan
  build_netconf_edit_plan node_key host config_xml = do
    validate_node_key node_key
    normalized_host ← validate_ip_literal ipv6 host
    raise_if (is_empty (strip config_xml)) (value_error "config_xml is required")
    ok (record {
      node_key = node_key;
      host = normalized_host;
      config_xml = config_xml;
      live_execution_status = codes "AVAILABLE_VIA_RUN_MUTATING";
    })

  unfoldable pub assert_dry_run_target_confirmation :
      NetconfEditPlan → Str → Str → Result (Unit {0})
  assert_dry_run_target_confirmation plan confirmed_node confirmed_host = validate ipv6 (record {
    expected_node = plan.node_key;
    expected_host = plan.host;
    confirmed_node = confirmed_node;
    confirmed_host = confirmed_host;
    run_mutating = true;
  })

  unfoldable pub assert_live_mutation_authorized : Str → Str → Str → Str → Bool → Result (Unit {0})
  assert_live_mutation_authorized node_key host confirmed_node confirmed_host run_mutating = do
    validate_node_key node_key
    normalized_host ← validate_ip_literal ipv6 host
    validate ipv6 (record {
      expected_node = node_key;
      expected_host = normalized_host;
      confirmed_node = confirmed_node;
      confirmed_host = confirmed_host;
      run_mutating = run_mutating;
    })

-- ===== src/Workflows/XponRemediation/Locked.antt =====
-- What a plan holds, and that no plan can be executed.
use device_cli_tool.Base.{true, false, Option, some, ◌≡◌, ◌∙◌, ap, arith, ok, is_ok}
use device_cli_tool.Text.{Str, codes}
use device_cli_tool.Safety.IpAddress.{ip_address}
use device_cli_tool.Safety.Policy.{
  MutationAuthorization, Number, validate_device_family, validate_node_key, validate_ip_literal,
  validate_xpon_mutation_commands, is_safe_key, expected_commands,
}
use device_cli_tool.Safety.Policy.Xpon.{InRange, validate_xpon_iff, validated_same}
use device_cli_tool.Workflows.XponRemediation.{
  XponRemediationPlan, build_register_method_a_plan, register_method_a,
  assert_live_execution_unlocked,
}

module _ (ipv6 : Str → Option Str) where
  built_lem :
      (family node host : Str) (slot port : Number) (plan : XponRemediationPlan)
      → build_register_method_a_plan ipv6 family node host slot port ≡ ok plan
      → (is_safe_key family ≡ true)
        × (is_safe_key node ≡ true)
        × (ip_address ipv6 host ≡ some plan.host)
        × (validate_xpon_mutation_commands (register_method_a slot port) slot port
            ≡ ok plan.mutation_commands)
        × (plan.slot ≡ slot)
        × (plan.port ≡ port)
        × (plan.live_execution_status ≡ codes "LOCKED")
  unfolding build_register_method_a_plan validate_device_family validate_node_key
      validate_ip_literal
  built_lem family node host slot port plan built = ground arith

  -- A plan exists only for safe names, an IP literal and a target in range; it holds the normal
  -- form of the host and exactly the protected commands of that target, and it is locked.
  pub build-plan :
      (family node host : Str) (slot port : Number) (plan : XponRemediationPlan)
      → build_register_method_a_plan ipv6 family node host slot port ≡ ok plan
      → (is_safe_key family ≡ true)
        × (is_safe_key node ≡ true)
        × (ip_address ipv6 host ≡ some plan.host)
        × InRange plan.slot plan.port
        × (plan.mutation_commands ≡ expected_commands slot port)
        × (plan.live_execution_status ≡ codes "LOCKED")
  build-plan family node host slot port plan built =
      let (safe_family, safe_node, is_ip, checked, same_slot, same_port, status) =
        built_lem family node host slot port plan built in
      let same =
        validated_same (register_method_a slot port) slot port plan.mutation_commands checked in
      let passed =
        (validate_xpon_iff (register_method_a slot port) slot port).0 (checked ∙ ap ok same) in
      (safe_family, safe_node, is_ip, rw same_slot (rw same_port passed.0), same, status)

  refused_at :
      (plan : XponRemediationPlan) (authorization : MutationAuthorization)
      → plan.live_execution_status ≡ codes "LOCKED"
      → is_ok (assert_live_execution_unlocked ipv6 plan authorization) ≡ false
  unfolding assert_live_execution_unlocked
  refused_at plan authorization locked = ground arith

  -- No authorization, however complete, lets a plan that was built be executed.
  pub live-locked :
      (family node host : Str) (slot port : Number) (plan : XponRemediationPlan)
      (authorization : MutationAuthorization)
      → build_register_method_a_plan ipv6 family node host slot port ≡ ok plan
      → is_ok (assert_live_execution_unlocked ipv6 plan authorization) ≡ false
  live-locked family node host slot port plan authorization built =
      refused_at plan authorization (built_lem family node host slot port plan built).6

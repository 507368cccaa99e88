-- ===== src/Workflows/NetconfEdit/Gate.antt =====
-- What the gate in front of a live edit lets pass.
use device_cli_tool.Base.{
  Bool, true, false, Option, none, some, ◌≡◌, ◌≢◌, ◌↔◌, inl, inr, Option-cases, arith, ok, is_ok,
}
use device_cli_tool.Text.{Str}
use device_cli_tool.Text.Laws.{str_eq_iff}
use device_cli_tool.Safety.IpAddress.{ip_address}
use device_cli_tool.Safety.Policy.{
  MutationAuthorization, validate, validate_node_key, validate_ip_literal, is_safe_key,
}
use device_cli_tool.Workflows.NetconfEdit.{assert_live_mutation_authorized}

module _ (ipv6 : Str → Option Str) where
  -- The authorization passes exactly if the node key is safe, the expected host is an IP literal,
  -- mutation was asked for, and both confirmations are the expected texts.
  pub validate_iff :
      (a : MutationAuthorization)
      → (validate ipv6 a ≡ ok tt) ↔ (
          (is_safe_key a.expected_node ≡ true)
          × (ip_address ipv6 a.expected_host ≢ none)
          × (a.run_mutating ≡ true)
          × (a.confirmed_node ≡ a.expected_node)
          × (a.confirmed_host ≡ a.expected_host))
  unfolding validate validate_node_key validate_ip_literal
  validate_iff a = ground (
    arith,
    str_eq_iff a.confirmed_node a.expected_node,
    str_eq_iff a.confirmed_host a.expected_host,
  )

  -- If the gate opens for a live edit, then mutation was asked for, the node was confirmed as it
  -- was given, and the host was confirmed in its normal form.
  pub live-authorized :
      (node host confirmed_node confirmed_host : Str) (run_mutating : Bool)
      → assert_live_mutation_authorized ipv6 node host confirmed_node confirmed_host run_mutating
        ≡ ok tt
      → (run_mutating ≡ true)
        × (confirmed_node ≡ node)
        × (ip_address ipv6 host ≡ some confirmed_host)
  unfolding assert_live_mutation_authorized validate validate_node_key validate_ip_literal
  live-authorized node host confirmed_node confirmed_host run_mutating passed =
      elim (Option-cases (ip_address ipv6 host)) [
        | inl e ↦ ground arith
        | inr (normal, e) ↦
            ground (arith, str_eq_iff confirmed_node node, str_eq_iff confirmed_host normal)
      ]

  -- A host that is not given in its normal form is refused when it is confirmed exactly as it was
  -- given.
  pub exact-confirmation-refused :
      (node host normal : Str) (run_mutating : Bool)
      → ip_address ipv6 host ≡ some normal
      → normal ≢ host
      → is_ok (assert_live_mutation_authorized ipv6 node host node host run_mutating) ≡ false
  unfolding assert_live_mutation_authorized validate validate_node_key validate_ip_literal
  exact-confirmation-refused node host normal run_mutating is_normal differs =
      ground (arith, str_eq_iff host normal)

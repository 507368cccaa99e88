-- ===== src/Netconf/Model/Capabilities.antt =====
-- When the capability tests of cli_tool/transport/netconf.py let a mutation pass.
use device_cli_tool.Base.{Bool, true, List, [], ◌≡◌, ◌↔◌, arith, map, any}
use device_cli_tool.Text.{Str, str_mem}
use device_cli_tool.Netconf.Model.{
  candidate_capabilities, confirmed_commit_capabilities, confirmed_commit_1_1, capability_name,
  missing_mutation_capabilities, missing_persist_capabilities,
}

-- `uri` is advertised: a capability has it for its name, before any `?`.
abbrev pub advertises : List Str → Str → Bool
advertises server_capabilities uri = str_mem uri (map capability_name server_capabilities)

-- A mutation passes the test exactly if the server advertises :candidate and one of the two
-- versions of :confirmed-commit; one with a persist token, if it advertises :candidate and version
-- 1.1.
pub missing-eq-nil :
    (caps : List Str)
    → ((missing_mutation_capabilities caps ≡ []) ↔ (
        (any (advertises caps) candidate_capabilities ≡ true)
        × (any (advertises caps) confirmed_commit_capabilities ≡ true)))
      × ((missing_persist_capabilities caps ≡ []) ↔ (
          (any (advertises caps) candidate_capabilities ≡ true)
          × (advertises caps confirmed_commit_1_1 ≡ true)))
unfolding missing_mutation_capabilities missing_persist_capabilities
missing-eq-nil caps = ground arith

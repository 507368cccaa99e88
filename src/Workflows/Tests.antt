-- ===== src/Workflows/Tests.antt =====
-- Verifications at concrete outputs.
use device_cli_tool.Base.{ℕ, true, false, List, [], ◌∷◌, ◌≡◌, refl, All, ok}
use device_cli_tool.Base.Exec.{◌>>=◌}
use device_cli_tool.Text.{Str, codes, strip, contains, casefold, normalize_newlines}
use device_cli_tool.Workflows.Verify.{
  CliCommandOutput, passed, verify_cli_outputs, verify_output_tokens, last_output, missing_tokens,
  tuple_of_strings, Transport, Driver, run_driver_verify, run_and_verify, expect_all, dict_keys,
}
use device_cli_tool.Parsers.LineCardStatus.{
  LineCardRecord, split_lines, search_from, header_positions, find_header, card_of, is_skipped,
  parse_rows, parse_table, parse_line_card_status,
}
use device_cli_tool.Workflows.LineCardPreflight.{
  only_output, check_result, run_line_card_preflight, IsVerified, preflight_iff,
}
use device_cli_tool.Workflows.Verify.Passed.{Verified, passed_iff}

abbrev outputs : List CliCommandOutput
outputs =
    record { command = codes "show version"; output = codes "OS: X0" }
    ∷ record { command = codes "show version"; output = codes "OS: X1\r\nrelease 2" }
    ∷ []

abbrev expected : List (Str × List Str)
expected = (codes "show version", codes "os" ∷ codes "RELEASE" ∷ []) ∷ []

outputs-passed : passed (verify_cli_outputs outputs expected false) ≡ true
unfolding verify_cli_outputs verify_output_tokens last_output missing_tokens tuple_of_strings strip
    contains casefold normalize_newlines
outputs-passed = refl

passed_iff_example : All (Verified false outputs) expected
passed_iff_example = (passed_iff outputs expected false).0 outputs-passed

abbrev table : Str
table = codes "Slot Card Type Status FW Version\n1    A4        OK     1.0\n"

abbrev cards : List LineCardRecord
cards =
    record {
      slot = codes "1";
      card_type = codes "A4";
      status = codes "OK";
      fw_version = codes "1.0";
    }
    ∷ []

abbrev line_cards : Transport
line_cards = record {
  State = ℕ;
  run_commands =
      λ commands n. (ok (record { command = codes "show lc st"; output = table } ∷ []), 7);
}

abbrev reading : Driver
reading = record {
  readonly = ok true;
  build_commands = ok (codes "show lc st" ∷ []);
  expected_tokens = ok (codes "fw version" ∷ []);
}

preflight-run : (run_line_card_preflight (λ c. false) line_cards reading 0).0 ≡ ok cards
unfolding run_line_card_preflight run_driver_verify run_and_verify expect_all dict_keys
    verify_cli_outputs verify_output_tokens last_output missing_tokens tuple_of_strings contains
    casefold check_result only_output parse_line_card_status find_header header_positions
    search_from split_lines normalize_newlines strip parse_table parse_rows card_of is_skipped ◌>>=◌
preflight-run = refl

preflight_iff_example :
    IsVerified (λ c. false) (run_driver_verify line_cards reading false 0).0 cards
preflight_iff_example = (preflight_iff (λ c. false) line_cards reading 0 cards).0 preflight-run

-- ===== src/Reporting/Tests.antt =====
-- Texts and a report that are redacted.
use device_cli_tool.Base.{ℕ, Bool, true, false, ◌≡◌, refl, []}
use device_cli_tool.Text.{codes, lower, is_space}
use device_cli_tool.Devices.Catalog.{
  Yaml, text, number, sequence, mapping, no_items, item, no_entries, entry,
}
use device_cli_tool.Reporting.Patterns.{sub_mac, sub_field, sub_xml, redact_text}
use device_cli_tool.Reporting.Redaction.{is_sensitive_key, redact}
use device_cli_tool.Reporting.Redaction.Hidden.{
  same, in_sequence, in_mapping, next, no_more, shown, hidden, no_entry, redact-Agree,
}

abbrev no_word : ℕ → Bool
no_word c = false

redact_text-fields :
    redact_text no_word
      (codes "Chassis serial : AB 12\n hostname:\n  sw1\nx 00:1A:2b:3c:4D:5e,00:11:22:33:44:556")
    ≡ codes
        "Chassis serial : ***REDACTED***\n hostname:\n  ***REDACTED***\nx ***MAC***,00:11:22:33:44:556"
unfolding redact_text sub_mac sub_field sub_xml is_space
redact_text-fields = refl

redact_text-tags :
    redact_text no_word (codes "<a:Password x='1'>one</A:password><token>two")
    ≡ codes "<a:Password x='1'>***REDACTED***</a:Password><token>two"
unfolding redact_text sub_mac sub_field sub_xml is_space
redact_text-tags = refl

abbrev report : Yaml → Yaml
report password = mapping (
    entry (text (codes "targets"))
      (sequence (
        item
          (mapping (
            entry (text (codes "dev_Key")) password
              (entry (text (codes "port")) (number 22) no_entries)))
          no_items))
      no_entries)

dev_key-is_sensitive : is_sensitive_key (codes "dev_Key") ≡ true
unfolding is_sensitive_key lower
dev_key-is_sensitive = refl

redact-Agree_example :
    redact no_word (λ _. []) (report (text (codes "one")))
    ≡ redact no_word (λ _. []) (report (number 2))
redact-Agree_example =
    redact-Agree no_word (λ _. []) (report (text (codes "one"))) (report (number 2))
      (in_mapping (
        shown (text (codes "targets"))
          (in_sequence (
            next
              (in_mapping (
                hidden (text (codes "dev_Key")) (text (codes "one")) (number 2) dev_key-is_sensitive
                  (shown (text (codes "port")) (same (number 22)) no_entry)))
              no_more))
          no_entry))

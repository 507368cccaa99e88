-- ===== src/Reporting/Redaction.antt =====
-- `redact` of cli_tool/reporting/redaction.py. `yaml_str` is `str` of a key that is no string.
pub mod Hidden
use device_cli_tool.Base.{ℕ, Bool, ◌||◌, ◌==◌, List, [], ◌∷◌, if◌then◌else◌, map}
use device_cli_tool.Text.{Str, codes, str_mem, lower_char}
use device_cli_tool.Devices.Catalog.{
  Yaml, text, sequence, mapping, Items, no_items, item, Entries, no_entries, entry, str_of,
}
use device_cli_tool.Reporting.Patterns.{redacted, redact_text}

abbrev pub sensitive_keys : List Str
sensitive_keys =
    codes "password"
    ∷ codes "passwd"
    ∷ codes "sessionid"
    ∷ codes "token"
    ∷ codes "authorization"
    ∷ codes "devkey"
    ∷ codes "community"
    ∷ codes "snmpcommunity"
    ∷ []

-- `key.replace("_", "").replace("-", "")`
abbrev without_dashes : Str → Str
without_dashes [] = []
without_dashes (c ∷ s) =
    let rest = without_dashes s in if c == b'_' || c == b'-' then rest else c ∷ rest

-- `lower`, of the characters that it makes ASCII letters.
abbrev key_char : ℕ → ℕ
key_char c = if c == 8490 then b'k' else lower_char c

unfoldable pub is_sensitive_key : Str → Bool
is_sensitive_key key = str_mem (map key_char (without_dashes key)) sensitive_keys

module _ (other_word : ℕ → Bool) (yaml_str : Yaml → Str) where
  unfoldable mutual
    pub redact : Yaml → Yaml
    redact (mapping entries) = mapping (redact_entries entries)
    redact (sequence items) = sequence (redact_items items)
    redact (text s) = text (redact_text other_word s)
    redact v = v

    pub redact_items : Items → Items
    redact_items no_items = no_items
    redact_items (item v items) = item (redact v) (redact_items items)

    pub redact_entries : Entries → Entries
    redact_entries no_entries = no_entries
    redact_entries (entry key v entries) =
        let shown = redact v in
        entry key (if is_sensitive_key (str_of yaml_str key) then text redacted else shown)
          (redact_entries entries)

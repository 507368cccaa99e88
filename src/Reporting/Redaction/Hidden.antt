-- ===== src/Reporting/Redaction/Hidden.antt =====
-- What a redacted report does not show.
use device_cli_tool.Base.{ℕ, Bool, true, false, ◌≡◌, refl, ap, if◌then◌else◌}
use device_cli_tool.Text.{Str}
use device_cli_tool.Devices.Catalog.{
  Yaml, text, sequence, mapping, Items, no_items, item, Entries, no_entries, entry, str_of,
}
use device_cli_tool.Reporting.Patterns.{redacted}
use device_cli_tool.Reporting.Redaction.{is_sensitive_key, redact, redact_items, redact_entries}

-- Two values that differ in what stands under sensitive keys, and in nothing else.
module _ (yaml_str : Yaml → Str) where
  mutual
    pub data Agree : Yaml → Yaml → Type 0 where
      same : (v : Yaml) → Agree v v
      in_sequence : {xs ys : Items} → AgreeItems xs ys → Agree (sequence xs) (sequence ys)
      in_mapping : {d e : Entries} → AgreeEntries d e → Agree (mapping d) (mapping e)

    pub data AgreeItems : Items → Items → Type 0 where
      no_more : AgreeItems no_items no_items
      next :
          {v w : Yaml} {xs ys : Items}
          → Agree v w
          → AgreeItems xs ys
          → AgreeItems (item v xs) (item w ys)

    pub data AgreeEntries : Entries → Entries → Type 0 where
      no_entry : AgreeEntries no_entries no_entries
      shown :
          {v w : Yaml} {d e : Entries} (key : Yaml)
          → Agree v w
          → AgreeEntries d e
          → AgreeEntries (entry key v d) (entry key w e)
      hidden :
          {d e : Entries} (key v w : Yaml)
          → is_sensitive_key (str_of yaml_str key) ≡ true
          → AgreeEntries d e
          → AgreeEntries (entry key v d) (entry key w e)

module _ (other_word : ℕ → Bool) (yaml_str : Yaml → Str) where
  hidden_lem :
      (b : Bool) (key v w : Yaml) {d e : Entries}
      → b ≡ true
      → d ≡ e
      → entry key (if b then text redacted else v) d ≡ entry key (if b then text redacted else w) e
  hidden_lem true key v w h equal = ap (entry key (text redacted)) equal
  hidden_lem false key v w h equal = absurd cc

  mutual
    unfolding redact

    redact_lem :
        {v w : Yaml}
        → Agree yaml_str v w
        → redact other_word yaml_str v ≡ redact other_word yaml_str w
    redact_lem (same v) = refl
    redact_lem (in_sequence h) = ap sequence (items_lem h)
    redact_lem (in_mapping h) = ap mapping (entries_lem h)

    items_lem :
        {xs ys : Items}
        → AgreeItems yaml_str xs ys
        → redact_items other_word yaml_str xs ≡ redact_items other_word yaml_str ys
    items_lem no_more = refl
    items_lem (next h hs) = cc (redact_lem h, items_lem hs)

    entries_lem :
        {d e : Entries}
        → AgreeEntries yaml_str d e
        → redact_entries other_word yaml_str d ≡ redact_entries other_word yaml_str e
    entries_lem no_entry = refl
    entries_lem (shown key h hs) = rw (redact_lem h, entries_lem hs) refl
    entries_lem (hidden key v w sensitive hs) =
        hidden_lem (is_sensitive_key (str_of yaml_str key)) key (redact other_word yaml_str v)
          (redact other_word yaml_str w) sensitive (entries_lem hs)

-- A redacted report does not tell what stands under its sensitive keys, at any depth: two reports that differ
-- in values under such keys and in nothing else are redacted to the same report.
pub redact-Agree :
    (other_word : ℕ → Bool) (yaml_str : Yaml → Str) (v w : Yaml)
    → Agree yaml_str v w
    → redact other_word yaml_str v ≡ redact other_word yaml_str w
redact-Agree other_word yaml_str v w h = redact_lem other_word yaml_str h

-- ===== src/Reporting/Patterns.antt =====
-- `redact_text` of cli_tool/reporting/redaction.py. `other_word` says which code points above ASCII are
-- word characters. Of the names of tags the case of letters above ASCII counts.
use device_cli_tool.Base.{
  ℕ, zero, suc, ◌-◌, Bool, true, false, not, ◌&&◌, ◌||◌, ◌==◌, leb, Option, none, some, List, [],
  ◌∷◌, ◌++◌, length, take, if◌then◌else◌, is_empty, map,
}
use device_cli_tool.Text.{Str, codes, str_mem, lower_char, is_space, drop_while, is_digit}
use device_cli_tool.Parsers.LineCardStatus.{
  is_word, fold_char, behind_word, behind_spaces, and_then,
}

abbrev pub xml_sensitive_tag_names : List Str
xml_sensitive_tag_names =
    codes "password"
    ∷ codes "hashed-password"
    ∷ codes "community"
    ∷ codes "snmp-community"
    ∷ codes "pre-shared-key"
    ∷ codes "psk"
    ∷ codes "secret"
    ∷ codes "shared-secret"
    ∷ codes "token"
    ∷ codes "public-key"
    ∷ codes "private-key"
    ∷ codes "cleartext-private-key"
    ∷ codes "encrypted-private-key"
    ∷ codes "cleartext-symmetric-key"
    ∷ codes "encrypted-symmetric-key"
    ∷ []

abbrev pub redacted : Str
redacted = codes "***REDACTED***"

abbrev is_hex : ℕ → Bool
is_hex c = is_digit c || leb b'a' (lower_char c) && leb (lower_char c) b'f'

abbrev hex_pair : Str → Option Str
hex_pair (c ∷ d ∷ s) = if is_hex c && is_hex d then some s else none
hex_pair _ = none

-- `(?::[0-9A-Fa-f]{2}){n}`
abbrev more_pairs : ℕ → Str → Option Str
more_pairs zero s = some s
more_pairs (suc n) [] = none
more_pairs (suc n) (c ∷ s) = if c == b':' then and_then (hex_pair s) (more_pairs n) else none

-- The characters of `s` in front of its end `rest`.
abbrev in_front : Str → Str → Str
in_front s rest = take (length s - length rest) s

abbrev line_rest : Str → Str
line_rest s = drop_while (λ c. not (c == 10)) s

abbrev or_else : Option Str → Option Str → Option Str
or_else none otherwise = otherwise
or_else (some s) otherwise = some s

-- Where `.+` begins behind a greedy `\s*`, which gives back what `.+` needs.
abbrev last_character : Str → Option Str
last_character [] = none
last_character (c ∷ s) = or_else (last_character s) (if c == 10 then none else some (c ∷ s))

abbrev value_start : Str → Option Str
value_start s =
    if is_empty (drop_while is_space s) then last_character s else some (drop_while is_space s)

abbrev behind_colon : Str → Option Str
behind_colon s = and_then (behind_word (codes ":") (drop_while is_space s)) value_start

-- A pattern of a field's name, and the value that stands behind it.
abbrev field_value : (Str → Option Str) → Str → Option Str
field_value name s = and_then (name (drop_while is_space s)) behind_colon

abbrev pub serial_name : Str → Option Str
serial_name s =
    or_else
      (and_then (behind_word (codes "serial") s)
        λ t. or_else (and_then (behind_spaces t) (behind_word (codes "number"))) (some t))
      (and_then (behind_word (codes "chassis") s)
        λ t. and_then (behind_spaces t) (behind_word (codes "serial")))

abbrev pub hostname_name : Str → Option Str
hostname_name s = behind_word (codes "hostname") s

abbrev pub contact_name : Str → Option Str
contact_name s = behind_word (codes "contact") s

abbrev pub location_name : Str → Option Str
location_name s = behind_word (codes "location") s

-- At the text `s`, whose value begins at `value`; `more n` is the rest behind the next `n` characters.
abbrev pub mask_field : Option Str → Str → Str → (ℕ → Str) → Str
mask_field none s kept more = kept
mask_field (some value) s kept more =
    in_front s value ++ redacted ++ more (length s - length (line_rest value) - 1)

-- `FIELD.sub(r"\1***REDACTED***", s)`, where `skip` characters still belong to a match.
unfoldable pub sub_field : (Str → Option Str) → Bool → ℕ → Str → Str
sub_field name line_start skip [] = []
sub_field name line_start (suc skip) (c ∷ s) = sub_field name (c == 10) skip s
sub_field name line_start zero (c ∷ s) =
    mask_field (if line_start then field_value name (c ∷ s) else none) (c ∷ s)
      (c ∷ sub_field name (c == 10) zero s) (λ skip. sub_field name (c == 10) skip s)

abbrev take_while : (ℕ → Bool) → Str → Str
take_while test [] = []
take_while test (c ∷ s) = let rest = take_while test s in if test c then c ∷ rest else []

-- A character as `\1` compares it, and what stands behind a text that is compared so.
abbrev same_char : ℕ → ℕ
same_char c = if c == 304 then b'i' else if c == 8490 then b'k' else lower_char c

abbrev behind_same : Str → Str → Option Str
behind_same [] s = some s
behind_same (w ∷ word) [] = none
behind_same (w ∷ word) (c ∷ s) = if same_char c == same_char w then behind_same word s else none

-- The first `</tag>` in a text, and what stands behind it.
abbrev behind_close : Str → Str → Option Str
behind_close close [] = none
behind_close close (c ∷ s) = or_else (behind_same close (c ∷ s)) (behind_close close s)

-- A tag: its name with the prefix, its attributes, and what stands behind the closing tag.
pub record Element : Type 0 where
  pub tag : Str
  pub attributes : Str
  pub behind : Str

abbrev element_of : Str → Str → Option Str → Option Element
element_of tag attributes none = none
element_of tag attributes (some behind) =
    some (record { tag = tag; attributes = attributes; behind = behind })

abbrev close_tag : Str → Str
close_tag tag = codes "</" ++ tag ++ codes ">"

abbrev with_body : Str → Str → Str → Option Element
with_body tag attributes body = element_of tag attributes (behind_close (close_tag tag) body)

-- `(\s[^>]*)?>` and the rest.
abbrev with_attributes : Str → Str → Option Element
with_attributes tag [] = none
with_attributes tag (c ∷ s) =
    if c == b'>'
    then with_body tag [] s
    else if is_space c
    then behind_angle (take_while (λ d. not (d == b'>')) (c ∷ s))
        (drop_while (λ d. not (d == b'>')) s)
    else none
  where
    behind_angle : Str → Str → Option Element
    behind_angle attributes [] = none
    behind_angle attributes (d ∷ body) = with_body tag attributes body

module _ (other_word : ℕ → Bool) where
  abbrev ends_word : Str → Bool
  ends_word [] = true
  ends_word (c ∷ s) = not (is_word other_word c)

  abbrev is_mac : Option Str → Bool
  is_mac none = false
  is_mac (some rest) = ends_word rest

  -- `MAC_ADDRESS.sub("***MAC***", s)`, behind a word character or not.
  unfoldable pub sub_mac : Bool → ℕ → Str → Str
  sub_mac behind_a_word skip [] = []
  sub_mac behind_a_word (suc skip) (c ∷ s) = sub_mac (is_word other_word c) skip s
  sub_mac behind_a_word zero (c ∷ s) =
      let kept = c ∷ sub_mac (is_word other_word c) zero s in
      let masked = codes "***MAC***" ++ sub_mac (is_word other_word c) 16 s in
      if not behind_a_word && is_mac (and_then (hex_pair (c ∷ s)) (more_pairs 5))
      then masked
      else kept

  abbrev tag_char : ℕ → Bool
  tag_char c = is_word other_word c || c == b'.' || c == b'-'

  -- Behind `<`: the characters of a prefix, a colon and a name, or of a name alone.
  abbrev named : Str → Str → Option Element
  named prefix s =
      let name = take_while tag_char s in
      if str_mem (map fold_char name) xml_sensitive_tag_names
      then with_attributes (prefix ++ name) (drop_while tag_char s)
      else none

  abbrev with_prefix : Str → Str → Option Element
  with_prefix s [] = named [] s
  with_prefix s (c ∷ rest) =
      if c == b':' && not (is_empty (take_while tag_char s))
      then named (take_while tag_char s ++ (b':' ∷ [])) rest
      else named [] s

  abbrev element : Str → Option Element
  element [] = none
  element (c ∷ s) = if c == b'<' then with_prefix s (drop_while tag_char s) else none

  abbrev mask_element : Option Element → Str → Str → (ℕ → Str) → Str
  mask_element none s kept more = kept
  mask_element (some e) s kept more =
      codes "<"
      ++ e.tag
      ++ e.attributes
      ++ codes ">"
      ++ redacted
      ++ close_tag e.tag
      ++ more (length s - length e.behind - 1)

  -- `XML_SENSITIVE_TAG.sub(r"<\1\2>***REDACTED***</\1>", s)`
  unfoldable pub sub_xml : ℕ → Str → Str
  sub_xml skip [] = []
  sub_xml (suc skip) (c ∷ s) = sub_xml skip s
  sub_xml zero (c ∷ s) =
      mask_element (element (c ∷ s)) (c ∷ s) (c ∷ sub_xml zero s) (λ skip. sub_xml skip s)

  unfoldable pub redact_text : Str → Str
  redact_text value =
      let without_mac = sub_mac false 0 value in
      let without_serial = sub_field serial_name true 0 without_mac in
      let without_hostname = sub_field hostname_name true 0 without_serial in
      let without_contact = sub_field contact_name true 0 without_hostname in
      sub_xml 0 (sub_field location_name true 0 without_contact)

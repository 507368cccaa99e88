-- ===== src/Parsers/LineCardStatus.antt =====
-- `parse_line_card_status` of cli_tool/parsers/line_card_status.py. `other_word` tells which characters
-- behind ASCII are of the class `\w`.
pub mod Header
pub mod Separators
pub mod Rows
pub mod Snapshot
use device_cli_tool.Base.{
  ℕ, suc, ◌+◌, ◌-◌, Bool, true, false, not, ◌&&◌, ◌||◌, Option, none, some, List, [], ◌∷◌, ◌==◌,
  ltb, leb, if◌then◌else◌, is_empty, is_none, take, drop, all, ◌>>=◌, Result, ok, err,
  line_card_parse,
}
use device_cli_tool.Text.{
  Str, codes, is_space, drop_while, lower_char, is_digit, strip, normalize_newlines,
}

pub record LineCardRecord : Type 0 where
  pub slot : Str
  pub card_type : Str
  pub status : Str
  pub fw_version : Str

-- `str.splitlines` of a text without carriage returns.
abbrev pub is_line_end : ℕ → Bool
is_line_end c = leb 10 c && leb c 13 || leb 28 c && leb c 30 || c == 133 || c == 8232 || c == 8233

abbrev pub add_to_line : Bool → ℕ → List Str → List Str
add_to_line true c lines = [] ∷ lines
add_to_line false c [] = (c ∷ []) ∷ []
add_to_line false c (line ∷ lines) = (c ∷ line) ∷ lines

unfoldable pub split_lines : Str → List Str
split_lines [] = []
split_lines (c ∷ s) = add_to_line (is_line_end c) c (split_lines s)

-- A character as the patterns compare it: IGNORECASE also takes the long s for an s, the dotted and the
-- dotless i for an i, and the sign of the kelvin for a k.
abbrev pub fold_char : ℕ → ℕ
fold_char c =
    if c == 383
    then b's'
    else if c == 304
    then b'i'
    else if c == 305
    then b'i'
    else if c == 8490
    then b'k'
    else lower_char c

-- What stands behind `word`, which is in lower case.
abbrev pub behind_word : Str → Str → Option Str
behind_word [] s = some s
behind_word (w ∷ word) [] = none
behind_word (w ∷ word) (c ∷ s) = if fold_char c == w then behind_word word s else none

-- `\s+`
abbrev pub behind_spaces : Str → Option Str
behind_spaces [] = none
behind_spaces (c ∷ s) = if is_space c then some (drop_while is_space s) else none

abbrev pub and_then : Option Str → (Str → Option Str) → Option Str
and_then none f = none
and_then (some s) f = f s

-- The columns of the header line, where they were found.
pub record Positions : Type 0 where
  pub card_type : Option ℕ
  pub status : Option ℕ
  pub fw_version : Option ℕ

abbrev found : Option ℕ → ℕ
found none = 0
found (some start) = 1

abbrev pub count : Positions → ℕ
count p = found p.card_type + found p.status + found p.fw_version

abbrev pub no_positions : Positions
no_positions = record { card_type = none; status = none; fw_version = none }

module _ (other_word : ℕ → Bool) where
  abbrev pub is_word : ℕ → Bool
  is_word c =
      if ltb c 128
      then is_digit c || c == b'_' || leb b'a' (lower_char c) && leb (lower_char c) b'z'
      else other_word c

  abbrev begins_with_word : Str → Bool
  begins_with_word [] = false
  begins_with_word (c ∷ s) = is_word c

  -- `\b` at the end of the pattern, behind a letter.
  abbrev ends_here : Option Str → Bool
  ends_here none = false
  ends_here (some s) = not (begins_with_word s)

  -- `pattern.search(line).start()`: `after_word` tells whether a word character stands before `s`, and
  -- `\b` before the first letter asks that none does.
  unfoldable pub search_from : (Str → Option Str) → Bool → ℕ → Str → Option ℕ
  search_from pattern after_word start [] = none
  search_from pattern after_word start (c ∷ s) =
      let later = search_from pattern (is_word c) (suc start) s in
      if not after_word && ends_here (pattern (c ∷ s)) then some start else later

  abbrev card_type_pattern : Str → Option Str
  card_type_pattern s =
      and_then (and_then (behind_word (codes "card") s) behind_spaces) (behind_word (codes "type"))

  abbrev status_pattern : Str → Option Str
  status_pattern s = behind_word (codes "status") s

  abbrev fw_version_pattern : Str → Option Str
  fw_version_pattern s =
      and_then (and_then (behind_word (codes "fw") s) behind_spaces) (behind_word (codes "version"))

  unfoldable pub header_positions : Str → Positions
  header_positions line = record {
    card_type = search_from card_type_pattern false 0 line;
    status = search_from status_pattern false 0 line;
    fw_version = search_from fw_version_pattern false 0 line;
  }

  -- `_find_header`. In place of the index, the lines behind the header are returned; `best` is what the
  -- loop has so far.
  unfoldable pub find_header :
      Option (List Str) × Positions → List Str → Option (List Str) × Positions
  find_header best [] = best
  find_header best (line ∷ lines) =
      let here : Option (List Str) × Positions = (some lines, header_positions line) in
      let better = if ltb (count best.1) (count here.1) then here else best in
      let later = find_header better lines in if count here.1 == 3 then here else later

-- `line[:card_start]` and so on.
unfoldable pub card_of : ℕ → ℕ → ℕ → Str → LineCardRecord
card_of card_start status_start fw_start line = record {
  slot = strip (take card_start line);
  card_type = strip (drop card_start (take status_start line));
  status = strip (drop status_start (take fw_start line));
  fw_version = strip (drop fw_start line);
}

-- `_SEPARATOR_LINE`
abbrev pub is_separator_char : ℕ → Bool
is_separator_char c = is_space c || c == b'=' || c == b'+' || c == b'|' || c == b':' || c == b'-'

unfoldable pub is_skipped : Str → Bool
is_skipped line = is_empty (strip line) || not (is_empty line) && all is_separator_char line

abbrev pub is_complete : LineCardRecord → Bool
is_complete card =
    not (is_empty card.card_type) && not (is_empty card.status) && not (is_empty card.fw_version)

abbrev pub add_card : LineCardRecord → Result (List LineCardRecord) → Result (List LineCardRecord)
add_card card (ok cards) = ok (card ∷ cards)
add_card card (err e) = err e

unfoldable pub parse_rows : (Str → LineCardRecord) → List Str → Result (List LineCardRecord)
parse_rows card [] = ok []
parse_rows card (line ∷ lines) =
    let rest = parse_rows card lines in
    if is_skipped line
    then rest
    else if is_complete (card line)
    then add_card (card line) rest
    else err (line_card_parse "show lc st row is missing required value(s)")

abbrev pub at_least_one : List LineCardRecord → Result (List LineCardRecord)
at_least_one [] = err (line_card_parse "show lc st output contains no line-card rows")
at_least_one (card ∷ cards) = ok (card ∷ cards)

-- Behind the search for the header: the columns that were found, and the lines behind the header.
unfoldable pub parse_table :
    Option ℕ → Option ℕ → Option ℕ → Option (List Str) → Result (List LineCardRecord)
parse_table (some card_start) (some status_start) (some fw_start) (some lines) =
    if ltb card_start status_start && ltb status_start fw_start
    then parse_rows (card_of card_start status_start fw_start) lines >>= at_least_one
    else err (line_card_parse "unsupported show lc st column order")
parse_table (some card_start) (some status_start) (some fw_start) none =
    err (line_card_parse "show lc st table header was not found")
parse_table _ _ _ _ = err (line_card_parse "show lc st output is missing required field(s)")

module _ (other_word : ℕ → Bool) where
  -- The cards of the snapshot.
  unfoldable pub parse_line_card_status : Str → Result (List LineCardRecord)
  parse_line_card_status output =
      let (lines, p) =
        find_header other_word (none, no_positions) (split_lines (normalize_newlines output)) in
      if is_empty (strip output)
      then err (line_card_parse "show lc st output is empty")
      else parse_table p.card_type p.status p.fw_version lines

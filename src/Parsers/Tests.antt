-- ===== src/Parsers/Tests.antt =====
-- A table, and the theorems at it.
use device_cli_tool.Base.{ℕ, Bool, false, Option, some, List, [], ◌∷◌, ◌≡◌, refl, ok}
use device_cli_tool.Text.{Str, codes, strip, normalize_newlines}
use device_cli_tool.Parsers.LineCardStatus.{
  LineCardRecord, Positions, split_lines, search_from, header_positions, find_header, card_of,
  is_skipped, parse_rows, parse_table, parse_line_card_status,
}
use device_cli_tool.Parsers.LineCardStatus.Header.{IsHeader}
use device_cli_tool.Parsers.LineCardStatus.Rows.{IsTable, parse_table_iff}
use device_cli_tool.Parsers.LineCardStatus.Snapshot.{IsRead, parse-IsRead}

abbrev ascii : ℕ → Bool
ascii c = false

abbrev output : Str
output =
    codes
      "show lc st\n\r\nSlot Card  Type Status FW Version\n---- ----\n1    A4         OK     1.0\n"

abbrev cards : List LineCardRecord
cards =
    record {
      slot = codes "1";
      card_type = codes "A4";
      status = codes "OK";
      fw_version = codes "1.0";
    }
    ∷ []

output-read : parse_line_card_status ascii output ≡ ok cards
unfolding parse_line_card_status find_header header_positions search_from split_lines
    normalize_newlines strip parse_table parse_rows card_of is_skipped
output-read = refl

parse-IsRead_example :
    (p : Positions) × (rest : Option (List Str)) × IsHeader ascii
      (split_lines (normalize_newlines output))
      rest
      p
    × IsRead p rest cards
parse-IsRead_example = parse-IsRead ascii output cards output-read

abbrev rows : List Str
rows = codes "---- ----" ∷ codes "1    A4         OK     1.0" ∷ []

rows-read : parse_table (some 5) (some 16) (some 23) (some rows) ≡ ok cards
unfolding strip parse_table parse_rows card_of is_skipped
rows-read = refl

parse_table_iff_example : IsTable 5 16 23 rows cards
parse_table_iff_example = (parse_table_iff 5 16 23 rows cards).0 rows-read

-- ===== src/Parsers/LineCardStatus/Snapshot.antt =====
-- What a snapshot says of the output that it was read from.
use device_cli_tool.Base.{
  ℕ, Bool, ◌≡◌, refl, arith, Option, none, some, List, ok, is_empty, Bool-cases, inl, inr,
}
use device_cli_tool.Text.{Str, strip, normalize_newlines}
use device_cli_tool.Parsers.LineCardStatus.{
  LineCardRecord, Positions, no_positions, find_header, split_lines, parse_table,
  parse_line_card_status,
}
use device_cli_tool.Parsers.LineCardStatus.Header.{IsHeader, find_header_lem}
use device_cli_tool.Parsers.LineCardStatus.Rows.{IsTable, parse_table_iff}

-- The columns and the table below the header line.
pub record IsRead (p : Positions) (rest : Option (List Str)) (cards : List LineCardRecord)
    : Type 0 where
  pub card_type : ℕ
  pub status : ℕ
  pub fw_version : ℕ
  pub rows : List Str
  pub positions_eq :
      p ≡ record { card_type = some card_type; status = some status; fw_version = some fw_version }
  pub rest_eq : rest ≡ some rows
  pub table : IsTable card_type status fw_version rows cards

parse_table-IsRead :
    (c s f : Option ℕ) (rest : Option (List Str)) (cards : List LineCardRecord)
    → parse_table c s f rest ≡ ok cards
    → IsRead (record { card_type = c; status = s; fw_version = f }) rest cards
unfolding parse_table
parse_table-IsRead (some c) (some s) (some f) (some rows) cards h = record {
  card_type = c;
  status = s;
  fw_version = f;
  rows = rows;
  positions_eq = refl;
  rest_eq = refl;
  table = (parse_table_iff c s f rows cards).0 h;
}
parse_table-IsRead (some c) (some s) (some f) none cards h = cc
parse_table-IsRead none s f rest cards h = cc
parse_table-IsRead (some c) none f rest cards h = cc
parse_table-IsRead (some c) (some s) none rest cards h = cc

-- A text is read as a snapshot only if one of its lines has the three column titles. The first such line
-- is taken for the header, the columns begin where the titles stand in it, in the expected order, and the
-- cards are those of the lines behind it: one for each that is neither blank nor a separator, in order,
-- each with its three values, and at least one.
pub parse-IsRead :
    (other_word : ℕ → Bool) (output : Str) (cards : List LineCardRecord)
    → parse_line_card_status other_word output ≡ ok cards
    → (p : Positions) × (rest : Option (List Str)) × IsHeader other_word
        (split_lines (normalize_newlines output))
        rest
        p
      × IsRead p rest cards
unfolding parse_line_card_status
parse-IsRead other_word output cards h =
    let lines = split_lines (normalize_newlines output) in
    let (rest, p) = find_header other_word (none, no_positions) lines in
    let parsed : parse_table p.card_type p.status p.fw_version rest ≡ ok cards =
      elim (Bool-cases (is_empty (strip output))) [
        | inl e ↦ absurd (ground (arith, e))
        | inr e ↦ ground (arith, e)
      ] in
    let read = parse_table-IsRead p.card_type p.status p.fw_version rest cards parsed in
    (
      p,
      rest,
      find_header_lem other_word (none, no_positions) lines refl (rw read.positions_eq refl),
      read,
    )

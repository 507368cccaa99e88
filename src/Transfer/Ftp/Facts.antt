-- ===== src/Transfer/Ftp/Facts.antt =====
-- The structured metadata of cli_tool/transfer/ftp.py: `_parse_facts`, `_parse_mlst_response` and
-- `_file_info_from_facts`. Digits are ASCII digits.
use device_cli_tool.Base.{
  ℕ, ℤ, pos, negated, Bool, true, false, not, ◌&&◌, ◌||◌, Option, none, some, List, [], ◌∷◌, ◌==◌,
  ltb, if◌then◌else◌, is_empty, is_none, length, take, drop, all, Result, ok, err, ftp_capability,
  raise_if, ◌>>=◌, ◌>>◌,
}
use device_cli_tool.Text.{
  Str, codes, str_eq, str_mem, is_space, strip, lstrip, lower, contains, has_char, split_on,
  before_char, after_char, is_digit, number_from, normalize_newlines,
}
use device_cli_tool.Parsers.LineCardStatus.{split_lines}
use device_cli_tool.Transfer.Models.{RemoteFileInfo}
use device_cli_tool.Transfer.Ftp.Server.{Facts}
use device_cli_tool.Transfer.Ftp.Calendar.{parse_modify_time}

-- `facts[key] = value`: a key that is there keeps its place.
abbrev pub set_fact : Str → Str → Facts → Facts
set_fact key value [] = (key, value) ∷ []
set_fact key value ((k, v) ∷ facts) =
    let rest = set_fact key value facts in
    if str_eq k key then (k, value) ∷ facts else (k, v) ∷ rest

-- `facts.get(key)`
abbrev pub get_fact : Str → Facts → Option Str
get_fact key [] = none
get_fact key ((k, v) ∷ facts) =
    let rest = get_fact key facts in if str_eq k key then some v else rest

-- One item of the loop of `_parse_facts`.
abbrev pub add_fact : Str → Facts → Facts
add_fact item facts =
    if has_char b'=' item
    then set_fact (lower (strip (before_char b'=' item))) (strip (after_char b'=' item)) facts
    else facts

abbrev pub add_facts : List Str → Facts → Facts
add_facts [] facts = facts
add_facts (item ∷ items) facts = add_facts items (add_fact item facts)

unfoldable pub parse_facts : Str → Facts
parse_facts value = add_facts (split_on b';' value) []

-- The text without a reply code: `line[4:].lstrip()`.
abbrev pub is_reply_separator : Str → Bool
is_reply_separator [] = false
is_reply_separator (c ∷ s) = c == b'-' || c == b' '

abbrev pub without_reply_code : Str → Str
without_reply_code line =
    if not (is_empty line)
      && all is_digit (take 3 line)
      && ltb 4 (length line)
      && is_reply_separator (drop 3 line)
    then lstrip (drop 4 line)
    else line

-- `line.split(None, 1)[0]` of a line that does not begin with white space.
abbrev pub first_word : Str → Str
first_word [] = []
first_word (c ∷ s) = let rest = first_word s in if is_space c then [] else c ∷ rest

abbrev pub or_default : Str → Option Str → Str
or_default default none = default
or_default default (some s) = s

unfoldable pub facts_of_lines : List Str → Result Facts
facts_of_lines [] = err (ftp_capability "FTP MLST response did not contain structured facts")
facts_of_lines (raw_line ∷ lines) =
    let line = without_reply_code (strip raw_line) in
    let facts = parse_facts (first_word line) in
    let rest = facts_of_lines lines in
    if not (has_char b'=' line) || not (has_char b';' line)
    then rest
    else if not (is_none (get_fact (codes "type") facts))
    then ok facts
    else rest

-- Two line ends for one, `"\r\n"`, and an empty last line make no difference here.
unfoldable pub parse_mlst_response : Str → Result Facts
parse_mlst_response response = facts_of_lines (split_lines (normalize_newlines response))

-- `{key.lower(): value}`
abbrev pub lower_keys : Facts → Facts → Facts
lower_keys [] normalized = normalized
lower_keys ((k, v) ∷ facts) normalized = lower_keys facts (set_fact (lower k) v normalized)

-- `int(s)`: white space around it, a sign, and digits, with single underscores between them.
abbrev digits_from : Bool → ℕ → Str → Option ℕ
digits_from after_digit n [] = if after_digit then some n else none
digits_from after_digit n (c ∷ s) =
    let digit = digits_from true (number_from n (c ∷ [])) s in
    let underscore = digits_from false n s in
    if is_digit c then digit else if after_digit && c == b'_' then underscore else none

abbrev signed : (ℕ → ℤ) → Option ℕ → Option ℤ
signed sign none = none
signed sign (some n) = some (sign n)

abbrev unsigned_int : Str → Option ℤ
unsigned_int [] = none
unsigned_int (c ∷ s) =
    if c == b'-'
    then signed negated (digits_from false 0 s)
    else if c == b'+'
    then signed pos (digits_from false 0 s)
    else signed pos (digits_from false 0 (c ∷ s))

unfoldable pub parse_int : Str → Option ℤ
parse_int s = unsigned_int (strip s)

abbrev pub require_size : Option ℤ → Result ℤ
require_size none = err (ftp_capability "invalid FTP size fact")
require_size (some size) = ok size

abbrev pub directory_types : List Str
directory_types = codes "dir" ∷ codes "cdir" ∷ codes "pdir" ∷ []

abbrev pub link_types : List Str
link_types = codes "link" ∷ codes "symlink" ∷ []

unfoldable pub file_info_from_facts : Str → Facts → Result RemoteFileInfo
file_info_from_facts path facts =
    let normalized = lower_keys facts [] in
    let entry_type = lower (or_default [] (get_fact (codes "type") normalized)) in
    let is_directory = str_mem entry_type directory_types in
    let is_symlink = contains entry_type (codes "slink") || str_mem entry_type link_types in
    let is_regular = str_eq entry_type (codes "file") in
    let size_fact = get_fact (codes "size") normalized in
    (do
      raise_if (not (is_directory || is_regular || is_symlink))
          (ftp_capability "unsupported FTP MLST type")
      raise_if (is_regular && is_none size_fact)
          (ftp_capability "FTP MLST file metadata is missing size")
      size ← require_size (parse_int (or_default (codes "0") size_fact))
      modified_time ← parse_modify_time (get_fact (codes "modify") normalized)
      ok (record {
        path = path;
        size = size;
        modified_time = modified_time;
        is_directory = is_directory;
        is_regular_file = is_regular;
        is_symlink = is_symlink;
      }))

-- ===== src/Transfer/Ftp/UnixList.antt =====
-- `_parse_unix_list_line`, `_validate_legacy_name` and the pattern `_UNIX_LIST_PATTERN`. Digits are
-- ASCII digits.
pub mod Names
use device_cli_tool.Base.{
  ℕ, ℤ, pos, Bool, not, ◌&&◌, ◌||◌, Option, none, some, [], ◌∷◌, ◌==◌, ltb, if◌then◌else◌, is_empty,
  length, take, drop, all, Result, ok, err, ftp_capability, raise_if, ◌>>=◌, ◌>>◌,
}
use device_cli_tool.Text.{
  Str, codes, str_eq, is_space, strip, has_char, starts_with, is_digit, number_from,
}
use device_cli_tool.Transfer.Ftp.Calendar.{month_number, validate_unix_list_date}

-- What a line says.
pub record Entry : Type 0 where
  pub name : Str
  pub size : ℤ
  pub is_directory : Bool
  pub is_regular_file : Bool
  pub is_symlink : Bool

-- A field of the pattern: what it takes, and the rest.
abbrev pub Field : Type 0
Field = Option (Str × Str)

abbrev pub put_first : ℕ → Str × Str → Str × Str
put_first c (s, t) = (c ∷ s, t)

-- The longest prefix of such characters.
abbrev pub span : (ℕ → Bool) → Str → Str × Str
span p [] = ([], [])
span p (c ∷ s) = let rest = span p s in if p c then put_first c rest else ([], c ∷ s)

-- `p+`, where what follows in the pattern does not begin with such a character.
abbrev non_empty : Str × Str → Field
non_empty ([], t) = none
non_empty (c ∷ s, t) = some (c ∷ s, t)

abbrev some_of : (ℕ → Bool) → Str → Field
some_of p s = non_empty (span p s)

-- `p{n}`
abbrev exactly : ℕ → (ℕ → Bool) → Str → Field
exactly n p s =
    if length (take n s) == n && all p (take n s) then some (take n s, drop n s) else none

abbrev is_type_char : ℕ → Bool
is_type_char c = has_char c (codes "bcdlps-")

abbrev is_mode_char : ℕ → Bool
is_mode_char c = has_char c (codes "rwxStTs-")

abbrev skip_mark : Str → Str
skip_mark [] = []
skip_mark (c ∷ s) = if has_char c (codes ".+@") then s else c ∷ s

abbrev and_then : {A B : Type 0} → Option A → (A → Option B) → Option B
and_then none f = none
and_then (some a) f = f a

-- `[bcdlps-][rwxStTs-]{9}[.+@]?`: the entry type, and the rest.
abbrev mode_field : Str → Option (ℕ × Str)
mode_field [] = none
mode_field (c ∷ s) =
    if is_type_char c
    then and_then (exactly 9 is_mode_char s) (λ (mode, t). some (c, skip_mark t))
    else none

-- `\s+`, and the rest.
abbrev spaces : Str → Option Str
spaces s = and_then (some_of is_space s) (λ (run, t). some t)

-- A field and the `\s+` behind it.
abbrev spaced : Field → Field
spaced field = and_then field (λ (s, t). and_then (spaces t) (λ rest. some (s, rest)))

abbrev is_not_space : ℕ → Bool
is_not_space c = not (is_space c)

-- `\d{2}:\d{2}|\d{4}`
abbrev clock_field : Str → Field
clock_field s =
    if length (take 5 s) == 5
      && all is_digit (take 2 s)
      && starts_with (drop 2 s) (codes ":")
      && all is_digit (drop 3 (take 5 s))
    then some (take 5 s, drop 5 s)
    else exactly 4 is_digit s

-- `\d{1,2}`
abbrev day_field : Str → Field
day_field s =
    and_then (some_of is_digit s)
      λ (digits, t). if ltb (length digits) 3 then some (digits, t) else none

abbrev last_of : Str → Str
last_of [] = []
last_of (c ∷ []) = c ∷ []
last_of (c ∷ d ∷ s) = last_of (d ∷ s)

-- `\s+(.+)$`: the name begins behind the white space; where nothing stands behind it, the last
-- character of it is the name.
abbrev name_of : Str × Str → Option Str
name_of ([], t) = none
name_of (c ∷ [], []) = none
name_of (c ∷ d ∷ run, []) = some (last_of (d ∷ run))
name_of (c ∷ run, d ∷ t) = some (d ∷ t)

-- The groups of the pattern that are used.
pub record Groups : Type 0 where
  pub entry_type : ℕ
  pub size : ℕ
  pub month : ℕ
  pub day : ℕ
  pub when : Str
  pub name : Str

-- `_UNIX_LIST_PATTERN.fullmatch(line)` of a line without line feeds.
unfoldable pub match_line : Str → Option Groups
match_line line = and_then (mode_field line) λ (entry_type, s). and_then (spaces s) λ s.
    and_then (spaced (some_of is_digit s)) λ (links, s).
      and_then (spaced (some_of is_not_space s)) λ (owner, s).
        and_then (spaced (some_of is_not_space s)) λ (group, s).
          and_then (spaced (some_of is_digit s)) λ (size, s).
            and_then (spaced (exactly 3 is_not_space s)) λ (month, s).
              and_then (month_number month) λ month. and_then (spaced (day_field s)) λ (day, s).
                and_then (clock_field s) λ (when, s). and_then (name_of (span is_space s)) λ name.
                  some (record {
                    entry_type = entry_type;
                    size = number_from 0 size;
                    month = month;
                    day = number_from 0 day;
                    when = when;
                    name = name;
                  })

abbrev pub has_control : Str → Bool
has_control s = has_char 0 s || has_char 13 s || has_char 10 s

abbrev pub require_match : Option Groups → Result Groups
require_match none = err (ftp_capability "legacy UNIX LIST line does not match the strict format")
require_match (some groups) = ok groups

-- `s.split(separator, 1)`, where `separator in s`.
unfoldable pub split_once : Str → Str → Option (Str × Str)
split_once separator [] = none
split_once separator (c ∷ s) =
    let rest = and_then (split_once separator s) (λ parts. some (put_first c parts)) in
    if starts_with (c ∷ s) separator then some ([], drop (length separator) (c ∷ s)) else rest

abbrev pub link_name : Option (Str × Str) → Result Str
link_name none = err (ftp_capability "legacy UNIX LIST symlink is missing its target")
link_name (some (name, target)) =
    if is_empty target || has_control target
    then err (ftp_capability "legacy UNIX LIST symlink target is invalid")
    else ok name

abbrev pub entry_name : ℕ → Str → Result Str
entry_name entry_type name =
    if entry_type == b'l' then link_name (split_once (codes " -> ") name) else ok name

unfoldable pub validate_legacy_name : Str → Result (Unit {0})
validate_legacy_name name = do
  raise_if (is_empty name || not (str_eq name (strip name)))
      (ftp_capability "legacy UNIX LIST entry name has unsafe surrounding whitespace")
  raise_if (has_char b'/' name || has_char 92 name || has_control name)
      (ftp_capability "legacy UNIX LIST entry name is not a safe basename")

-- The tuple that is returned.
abbrev pub made : Groups → Str → Entry
made groups name = record {
  name = name;
  size = pos groups.size;
  is_directory = groups.entry_type == b'd';
  is_regular_file = groups.entry_type == b'-';
  is_symlink = groups.entry_type == b'l';
}

named_entry : Groups → Str → Result Entry
named_entry groups name = do validate_legacy_name name; ok (made groups name)

-- What comes behind the match.
entry_of : Groups → Result Entry
unfolding named_entry
entry_of groups = do
  raise_if (not (has_char groups.entry_type (codes "-dl")))
      (ftp_capability "unsupported legacy UNIX LIST entry type")
  validate_unix_list_date groups.month groups.day groups.when
  name ← entry_name groups.entry_type groups.name
  named_entry groups name

unfoldable pub parse_unix_list_line : Str → Result Entry
unfolding entry_of
parse_unix_list_line line = do
  raise_if (is_empty line || has_control line)
      (ftp_capability "legacy UNIX LIST line contains invalid control characters")
  groups ← require_match (match_line line)
  entry_of groups

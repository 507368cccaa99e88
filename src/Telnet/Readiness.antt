-- ===== src/Telnet/Readiness.antt =====
-- cli_tool/transport/readiness.py: when the output of a terminal is complete, and what of it is the
-- answer to a command.
pub mod Envelope
use device_cli_tool.Base.{
  ℕ, zero, suc, ◌+◌, ◌-◌, Bool, true, false, not, ◌&&◌, ◌||◌, Option, none, some, List, [], ◌∷◌,
  ◌++◌, ◌==◌, leb, if◌then◌else◌, is_empty, is_none, all, any, length, drop, map,
}
use device_cli_tool.Text.{
  Str, codes, str_eq, strip, rstrip, starts_with, has_char, split_on, join, normalize_newlines,
}
use device_cli_tool.Parsers.LineCardStatus.{split_lines}

-- `ANSI_ESCAPE`, by the state of a match: the parameter bytes, and the intermediate bytes. The length
-- of what is left of the match, or none.
abbrev one_more : Option ℕ → Option ℕ
one_more none = none
one_more (some n) = some (suc n)

abbrev ends_escape : ℕ → Option ℕ
ends_escape c = if leb 64 c && leb c 126 then some 1 else none

abbrev intermediate_length : Str → Option ℕ
intermediate_length [] = none
intermediate_length (c ∷ s) =
    let rest = intermediate_length s in
    if leb 32 c && leb c 47 then one_more rest else ends_escape c

abbrev parameter_length : Str → Option ℕ
parameter_length [] = none
parameter_length (c ∷ s) =
    let rest = parameter_length s in
    if leb 48 c && leb c 63 then one_more rest else intermediate_length (c ∷ s)

-- The length of the escape sequence behind `"\x1b"`.
abbrev pub escape_length : Str → Option ℕ
escape_length [] = none
escape_length (c ∷ s) = if c == b'[' then one_more (parameter_length s) else none

-- What is behind the character `c` of an escape sequence that begins there.
abbrev pub matched : ℕ → Str → Option ℕ
matched c s = if c == 27 then escape_length s else none

abbrev pub or_zero : Option ℕ → ℕ
or_zero none = 0
or_zero (some n) = n

-- `ANSI_ESCAPE.sub("", s)`, where `skip` characters still belong to an escape sequence.
unfoldable pub without_escapes : ℕ → Str → Str
without_escapes skip [] = []
without_escapes (suc skip) (c ∷ s) = without_escapes skip s
without_escapes zero (c ∷ s) =
    let rest = without_escapes (or_zero (matched c s)) s in
    if is_none (matched c s) then c ∷ rest else rest

unfoldable pub normalize_stream_text : Str → Str
normalize_stream_text output = normalize_newlines (without_escapes 0 output)

abbrev pub is_blank : Str → Bool
is_blank line = is_empty (strip line)

abbrev pub drop_blank : List Str → List Str
drop_blank [] = []
drop_blank (line ∷ lines) =
    let rest = drop_blank lines in if is_blank line then rest else line ∷ lines

-- A list without its last elements that satisfy `p`: those that stand before no kept one.
abbrev pub keep_line : Bool → Str → List Str → List Str
keep_line true line [] = []
keep_line true line (next ∷ lines) = line ∷ next ∷ lines
keep_line false line lines = line ∷ lines

abbrev pub drop_blank_end : List Str → List Str
drop_blank_end [] = []
drop_blank_end (line ∷ lines) = keep_line (is_blank line) line (drop_blank_end lines)

abbrev pub last_line : List Str → Str
last_line [] = []
last_line (line ∷ []) = line
last_line (line ∷ next ∷ lines) = last_line (next ∷ lines)

abbrev last_char : Str → ℕ
last_char [] = 0
last_char (c ∷ []) = c
last_char (c ∷ d ∷ s) = last_char (d ∷ s)

-- `DEFAULT_PROMPT_PATTERN` on a line without the white space behind it: at most 200 characters and
-- one of `#>$%`.
abbrev pub prompt_of : Str → Option Str
prompt_of line =
    if leb 2 (length line) && leb (length line) 201 && has_char (last_char line) (codes "#>$%")
    then some (strip line)
    else none

-- Only white space may stand behind the last match, so that it is on the last line that is not blank.
unfoldable pub detect_prompt : Str → Option Str
detect_prompt output =
    prompt_of (rstrip (last_line (drop_blank_end (split_on 10 (normalize_stream_text output)))))

-- `{prompt}[ \t]*\Z`
abbrev pub is_tail : Str → Str → Bool
is_tail prompt s = starts_with s prompt && all (λ c. c == 32 || c == 9) (drop (length prompt) s)

-- The same behind a line feed.
abbrev pub tail_behind_newline : Str → Str → Bool
tail_behind_newline prompt [] = false
tail_behind_newline prompt (c ∷ s) = c == 10 && is_tail prompt s || tail_behind_newline prompt s

unfoldable pub ends_with_prompt : Str → Str → Bool
ends_with_prompt output prompt =
    let normalized = normalize_stream_text output in
    is_tail prompt normalized || tail_behind_newline prompt normalized

-- `if lines and lines[-1].strip() == prompt: lines.pop()`
abbrev pub drop_prompt : Str → List Str → List Str
drop_prompt prompt [] = []
drop_prompt prompt (line ∷ []) = if str_eq (strip line) prompt then [] else line ∷ []
drop_prompt prompt (line ∷ next ∷ lines) = line ∷ drop_prompt prompt (next ∷ lines)

abbrev pub is_echo : Str → Str → Str → Bool
is_echo command prompt first =
    str_eq first command
    || str_eq first (prompt ++ command)
    || str_eq first (prompt ++ (b' ' ∷ command))

abbrev pub drop_echo : Str → Str → List Str → List Str
drop_echo command prompt [] = []
drop_echo command prompt (line ∷ lines) =
    if is_echo command prompt (strip line) then lines else line ∷ lines

unfoldable pub strip_command_envelope : Str → Str → Str → Str
strip_command_envelope output command prompt =
    let lines = drop_blank_end (drop_blank (split_lines (normalize_stream_text output))) in
    strip (join (10 ∷ []) (map rstrip (drop_echo command prompt (drop_prompt prompt lines))))

-- ===== src/Telnet/Patterns.antt =====
-- The patterns of cli_tool/transport/telnet.py: LOGIN_PROMPT, PASSWORD_PROMPT,
-- YES_NO_CONFIRM_PROMPT and PAGER_PROMPT. cli_tool/transport/ssh.py and serial.py have the last two
-- and LOGOUT_CONFIRM_PROMPT; serial.py has LOGIN_PROMPT and PASSWORD_PROMPT of its own.
use device_cli_tool.Base.{
  ℕ, zero, suc, ◌+◌, ◌-◌, Bool, false, not, ◌||◌, Option, none, some, [], ◌∷◌, ◌==◌, if◌then◌else◌,
  is_none, length,
}
use device_cli_tool.Text.{Str, codes, is_space, drop_while}
use device_cli_tool.Parsers.LineCardStatus.{behind_word, behind_spaces, and_then}

-- A pattern: what stands behind a match at the beginning of the text.
abbrev pub Pattern : Type 0
Pattern = Str → Option Str

-- `\s*`
abbrev any_spaces : Str → Str
any_spaces s = drop_while is_space s

abbrev or_else : Option Str → Option Str → Option Str
or_else none other = other
or_else (some s) other = some s

-- `\s*[:>]`
abbrev mark_of : Str → Option Str
mark_of [] = none
mark_of (c ∷ s) = if c == b':' || c == b'>' then some s else none

abbrev behind_mark : Pattern
behind_mark s = mark_of (any_spaces s)

-- Two words, and the spaces between them.
abbrev words : Str → Str → Pattern
words first second s = and_then (and_then (behind_word first s) behind_spaces) (behind_word second)

abbrev login_word : Pattern
login_word s =
    or_else (behind_word (codes "login") s)
      (or_else (behind_word (codes "username") s) (words (codes "user") (codes "name") s))

unfoldable pub login_prompt : Pattern
login_prompt s = and_then (login_word s) behind_mark

unfoldable pub password_prompt : Pattern
password_prompt s = and_then (behind_word (codes "password") s) behind_mark

-- `\s*:`, which is all that cli_tool/transport/serial.py takes behind these words.
abbrev behind_colon : Pattern
behind_colon s = behind_word (codes ":") (any_spaces s)

unfoldable pub serial_login_prompt : Pattern
serial_login_prompt s = and_then (login_word s) behind_colon

unfoldable pub serial_password_prompt : Pattern
serial_password_prompt s = and_then (behind_word (codes "password") s) behind_colon

-- `confirm\s*\[y/n\]` and `confirm\s*\(y/n\)`. The words that may stand before the first do not
-- matter to a search.
unfoldable pub yes_no_confirm_prompt : Pattern
yes_no_confirm_prompt s = and_then (behind_word (codes "confirm") s) λ t.
    or_else (behind_word (codes "[y/n]") (any_spaces t))
      (behind_word (codes "(y/n)") (any_spaces t))

-- `logout\s+system\s+now\s*\(y/n\)\?`
unfoldable pub logout_confirm_prompt : Pattern
logout_confirm_prompt s = and_then (words (codes "logout") (codes "system") s) λ t.
    and_then (behind_spaces t)
      λ u. and_then (behind_word (codes "now") u) λ v. behind_word (codes "(y/n)?") (any_spaces v)

-- `next\s+page`, `continue\s*:\s*c` or `quit\s*:\s*esc`
abbrev with_colon : Str → Str → Pattern
with_colon first second s =
    and_then (and_then (behind_word first s) (λ t. behind_word (codes ":") (any_spaces t)))
      (λ t. behind_word second (any_spaces t))

abbrev pager_end : Pattern
pager_end s = or_else (words (codes "next") (codes "page") s) (
    or_else (with_colon (codes "continue") (codes "c") s)
      (with_colon (codes "quit") (codes "esc") s))

-- `.*?` and the end, on one line.
abbrev pager_rest : Pattern
pager_rest [] = none
pager_rest (c ∷ s) =
    let later = pager_rest s in or_else (pager_end (c ∷ s)) (if c == 10 then none else later)

unfoldable pub pager_prompt : Pattern
pager_prompt s =
    and_then
      (and_then (behind_word (codes "--") s) (λ t. behind_word (codes "more") (any_spaces t)))
      (λ t. and_then (behind_word (codes "--") (any_spaces t)) pager_rest)

-- `pattern.search(s) is not None`; the patterns do not match the empty text.
unfoldable pub search : Pattern → Str → Bool
search pattern [] = false
search pattern (c ∷ s) = not (is_none (pattern (c ∷ s))) || search pattern s

abbrev match_length : Str → Option Str → ℕ
match_length s none = 0
match_length s (some rest) = length s - length rest

abbrev found : Option Str → ℕ
found none = 0
found (some rest) = 1

-- `len(pattern.findall(s))`, where `skip` characters still belong to a match.
unfoldable pub count_matches : Pattern → ℕ → Str → ℕ
count_matches pattern skip [] = 0
count_matches pattern (suc skip) (c ∷ s) = count_matches pattern skip s
count_matches pattern zero (c ∷ s) =
    let match = pattern (c ∷ s) in
    found match + count_matches pattern (match_length (c ∷ s) match - 1) s

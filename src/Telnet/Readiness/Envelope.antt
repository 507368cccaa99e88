-- ===== src/Telnet/Readiness/Envelope.antt =====
-- The answer of a device that echoes the command and prints its prompt behind the answer.
use device_cli_tool.Base.{
  ℕ, Bool, true, false, not, ◌&&◌, ◌≡◌, refl, ap, ◌∙◌, arith, List, [], ◌∷◌, ◌++◌, ◌==◌, All,
  All-append, all, all-append, length, drop, map,
}
use device_cli_tool.Text.{Str, str_eq, strip, rstrip, starts_with, join, normalize_newlines}
use device_cli_tool.Text.Laws.{str_eq_refl}
use device_cli_tool.Parsers.LineCardStatus.{split_lines, is_line_end}
use device_cli_tool.Telnet.Readiness.{
  without_escapes, normalize_stream_text, is_blank, keep_line, drop_blank, drop_blank_end,
  drop_prompt, drop_echo, is_tail, tail_behind_newline, ends_with_prompt, strip_command_envelope,
}

-- Neither the end of a line nor the escape character.
abbrev pub is_plain : ℕ → Bool
is_plain c = not (is_line_end c) && not (c == 27)

abbrev pub IsLine : Str → Type 0
IsLine line = all is_plain line ≡ true

split_line : (c : ℕ) (line : Str) → IsLine (c ∷ line) → split_lines (c ∷ line) ≡ (c ∷ line) ∷ []
unfolding split_lines
split_line c [] h = let e : is_line_end c ≡ false = ground (arith, h) in rw e refl
split_line c (d ∷ line) h =
    let e : is_line_end c ≡ false = ground (arith, h) in
    let ih = split_line d line (ground (arith, h)) in rw (e, ih) refl

split_newline : (line s : Str) → IsLine line → split_lines (line ++ (10 ∷ s)) ≡ line ∷ split_lines s
unfolding split_lines
split_newline [] s h = refl
split_newline (c ∷ line) s h =
    let e : is_line_end c ≡ false = ground (arith, h) in
    let ih = split_newline line s (ground (arith, h)) in rw (e, ih) refl

abbrev pub unlines : List Str → Str
unlines lines = join (10 ∷ []) lines

-- The last line is not empty.
split_lines-unlines :
    (c : ℕ) (last : Str) (lines : List Str)
    → All IsLine lines
    → IsLine (c ∷ last)
    → split_lines (unlines (lines ++ ((c ∷ last) ∷ []))) ≡ lines ++ ((c ∷ last) ∷ [])
unfolding join
split_lines-unlines c last [] hs h = split_line c last h
split_lines-unlines c last (line ∷ []) (h', hs) h =
    split_newline line (c ∷ last) h' ∙ ap (λ ls. line ∷ ls) (split_line c last h)
split_lines-unlines c last (line ∷ next ∷ lines) (h', hs) h =
    split_newline line (unlines (next ∷ (lines ++ ((c ∷ last) ∷ [])))) h'
    ∙ ap (λ ls. line ∷ ls) (split_lines-unlines c last (next ∷ lines) hs h)

-- A text that is normalized.
abbrev pub is_normal : ℕ → Bool
is_normal c = not (c == 13) && not (c == 27)

without_escapes_lem : (s : Str) → all is_normal s ≡ true → without_escapes 0 s ≡ s
unfolding without_escapes
without_escapes_lem [] h = refl
without_escapes_lem (c ∷ s) h =
    let e : (c == 27) ≡ false = ground (arith, h) in
    rw e (ap (λ t. c ∷ t) (without_escapes_lem s (ground (arith, h))))

normalize_newlines_lem : (s : Str) → all is_normal s ≡ true → normalize_newlines s ≡ s
unfolding normalize_newlines
normalize_newlines_lem [] h = refl
normalize_newlines_lem (c ∷ []) h = let e : (c == 13) ≡ false = ground (arith, h) in rw e refl
normalize_newlines_lem (c ∷ d ∷ s) h =
    let e : (c == 13) ≡ false = ground (arith, h) in
    rw e (ap (λ t. c ∷ t) (normalize_newlines_lem (d ∷ s) (ground (arith, h))))

pub normalize_lem : (s : Str) → all is_normal s ≡ true → normalize_stream_text s ≡ s
unfolding normalize_stream_text
normalize_lem s h = rw (without_escapes_lem s h) (normalize_newlines_lem s h)

plain-normal : (line : Str) → IsLine line → all is_normal line ≡ true
plain-normal [] h = refl
plain-normal (c ∷ line) h = ground (arith, h, plain-normal line)

pub unlines-normal : (lines : List Str) → All IsLine lines → all is_normal (unlines lines) ≡ true
unfolding join
unlines-normal [] hs = refl
unlines-normal (line ∷ []) (h, hs) = plain-normal line h
unlines-normal (line ∷ next ∷ lines) (h, hs) =
    rw (all-append is_normal line (10 ∷ unlines (next ∷ lines)), plain-normal line h)
      (unlines-normal (next ∷ lines) hs)

starts_with_refl : (s : Str) → starts_with s s ≡ true
unfolding starts_with
starts_with_refl [] = refl
starts_with_refl (c ∷ s) = ground (arith, starts_with_refl s)

drop_all : (s : Str) → drop (length s) s ≡ []
drop_all [] = refl
drop_all (c ∷ s) = drop_all s

module _ (prompt : Str) where
  keep_line_lem :
      (b : Bool) (line : Str) (lines : List Str)
      → keep_line b line (lines ++ (prompt ∷ [])) ≡ line ∷ (lines ++ (prompt ∷ []))
  keep_line_lem true line [] = refl
  keep_line_lem true line (next ∷ lines) = refl
  keep_line_lem false line lines = refl

  drop_blank_end_lem :
      (lines : List Str)
      → is_blank prompt ≡ false
      → drop_blank_end (lines ++ (prompt ∷ [])) ≡ lines ++ (prompt ∷ [])
  drop_blank_end_lem [] h = rw h refl
  drop_blank_end_lem (line ∷ lines) h =
      rw (drop_blank_end_lem lines h) (keep_line_lem (is_blank line) line lines)

  drop_prompt_lem :
      (lines : List Str)
      → strip prompt ≡ prompt
      → drop_prompt prompt (lines ++ (prompt ∷ [])) ≡ lines
  drop_prompt_lem [] h =
      let e : str_eq (strip prompt) prompt ≡ true =
        ap (λ s. str_eq s prompt) h ∙ str_eq_refl prompt in
      rw e refl
  drop_prompt_lem (line ∷ []) h = ap (λ ls. line ∷ ls) (drop_prompt_lem [] h)
  drop_prompt_lem (line ∷ next ∷ lines) h = ap (λ ls. line ∷ ls) (drop_prompt_lem (next ∷ lines) h)

  drop_echo_lem :
      (command : Str) (lines : List Str)
      → strip command ≡ command
      → drop_echo command prompt (command ∷ lines) ≡ lines
  drop_echo_lem command lines h =
      let e : str_eq (strip command) command ≡ true =
        ap (λ s. str_eq s command) h ∙ str_eq_refl command in
      rw e refl

  is_tail_refl : is_tail prompt prompt ≡ true
  is_tail_refl = rw (starts_with_refl prompt, drop_all prompt) refl

  tail_behind :
      (line s : Str)
      → is_tail prompt s ≡ true
      → tail_behind_newline prompt (line ++ (10 ∷ s)) ≡ true
  tail_behind [] s h = rw h refl
  tail_behind (c ∷ line) s h = ground (arith, tail_behind line s h)

  tail_later :
      (line s : Str)
      → tail_behind_newline prompt s ≡ true
      → tail_behind_newline prompt (line ++ (10 ∷ s)) ≡ true
  tail_later [] s h = ground (arith, h)
  tail_later (c ∷ line) s h = ground (arith, tail_later line s h)

  pub tail_lem :
      (line : Str) (lines : List Str)
      → tail_behind_newline prompt (unlines (line ∷ (lines ++ (prompt ∷ [])))) ≡ true
  unfolding join
  tail_lem line [] = tail_behind line prompt is_tail_refl
  tail_lem line (next ∷ lines) = tail_later line _ (tail_lem next lines)

-- A device's complete answer: it echoes the command, sends the lines of the body, and prints its prompt.
abbrev pub exchange : Str → List Str → Str → Str
exchange command body prompt = unlines (command ∷ (body ++ (prompt ∷ [])))

-- The body as the program returns it: no white space at the ends of lines, none around it.
abbrev pub answer_of : List Str → Str
answer_of body = strip (unlines (map rstrip body))

-- A command or a prompt: one plain line without white space around it, and not empty.
pub record IsTyped (line : Str) : Type 0 where
  pub is_line : IsLine line
  pub stripped : strip line ≡ line
  pub not_blank : is_blank line ≡ false

-- The envelope of a complete answer goes away, and its body stays: the echo of the command and the prompt
-- are dropped, whatever the lines of the body are, as long as the command, the prompt and these lines have
-- no line end and no escape character, and neither the command nor the prompt is blank or has white space
-- around it.
pub strip_command_envelope-exchange :
    (command prompt : Str) (body : List Str)
    → IsTyped command
    → IsTyped prompt
    → All IsLine body
    → strip_command_envelope (exchange command body prompt) command prompt ≡ answer_of body
unfolding strip_command_envelope
strip_command_envelope-exchange command [] body hc hp hb = absurd cc
strip_command_envelope-exchange command (p ∷ prompt) body hc hp hb =
    let lines = body ++ ((p ∷ prompt) ∷ []) in
    let all_lines = All-append IsLine body ((p ∷ prompt) ∷ []) hb (hp.is_line, tt) in
    let normal : normalize_stream_text (unlines (command ∷ lines)) ≡ unlines (command ∷ lines) =
      normalize_lem _ (unlines-normal (command ∷ lines) (hc.is_line, all_lines)) in
    let split : split_lines (unlines (command ∷ lines)) ≡ command ∷ lines =
      split_lines-unlines p prompt (command ∷ body) (hc.is_line, hb) hp.is_line in
    let front : drop_blank (command ∷ lines) ≡ command ∷ lines = rw hc.not_blank refl in
    let back : drop_blank_end (command ∷ lines) ≡ command ∷ lines =
      drop_blank_end_lem (p ∷ prompt) (command ∷ body) hp.not_blank in
    let last : drop_prompt (p ∷ prompt) (command ∷ lines) ≡ command ∷ body =
      drop_prompt_lem (p ∷ prompt) (command ∷ body) hp.stripped in
    let echo : drop_echo command (p ∷ prompt) (command ∷ body) ≡ body =
      drop_echo_lem (p ∷ prompt) command body hc.stripped in
    rw (normal, split, front, back, last, echo) refl

-- A complete answer ends with the prompt.
pub exchange-ends :
    (command prompt : Str) (body : List Str)
    → IsTyped command
    → IsTyped prompt
    → All IsLine body
    → ends_with_prompt (exchange command body prompt) prompt ≡ true
unfolding ends_with_prompt
exchange-ends command prompt body hc hp hb =
    let all_lines = All-append IsLine body (prompt ∷ []) hb (hp.is_line, tt) in
    let normal : normalize_stream_text (exchange command body prompt)
        ≡ exchange command body prompt =
      normalize_lem _
        (unlines-normal (command ∷ (body ++ (prompt ∷ []))) (hc.is_line, all_lines)) in
    rw normal (ground (arith, tail_lem prompt command body))

-- An empty output does not.
pub nothing-ends : (prompt : Str) → IsTyped prompt → ends_with_prompt [] prompt ≡ false
unfolding ends_with_prompt normalize_stream_text without_escapes normalize_newlines starts_with
nothing-ends [] h = absurd cc
nothing-ends (c ∷ prompt) h = refl

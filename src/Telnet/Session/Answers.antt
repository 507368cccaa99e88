-- ===== src/Telnet/Session/Answers.antt =====
-- A command whose answer arrives in time.
use device_cli_tool.Base.{
  ℕ, zero, suc, ◌<◌, ◌-◌, true, false, ◌≡◌, refl, ap, ◌∙◌, arith, Option, none, some, is_empty,
  List, [], ◌∷◌, ◌++◌, All, Result, ok,
}
use device_cli_tool.Base.Exec.{Exec, pure, continue, ◌>>=◌}
use device_cli_tool.Text.{Str, normalize_newlines}
use device_cli_tool.Workflows.Verify.{CliCommandOutput}
use device_cli_tool.Telnet.Protocol.{Bytes, consume_protocol}
use device_cli_tool.Telnet.Readiness.{
  normalize_stream_text, without_escapes, ends_with_prompt, strip_command_envelope,
}
use device_cli_tool.Telnet.Readiness.Envelope.{
  IsLine, IsTyped, exchange, answer_of, strip_command_envelope-exchange, exchange-ends,
  nothing-ends,
}
use device_cli_tool.Telnet.Patterns.{pager_prompt, yes_no_confirm_prompt, search, count_matches}
use device_cli_tool.Telnet.Reader.{
  Conn, World, Answer, Stops, at_prompt, at_confirmation, stopped, decide, newlines, on_conn,
  write_raw, write_line, consume, received, continue_pagers, end_round, read_rounds,
  read_until_ready,
}
use device_cli_tool.Telnet.Session.{confirmed, run_command}

-- From `s`, `recv` times out `n` times, and then gives `raw`.
pub data Arrives (C : Conn) (raw : Bytes) (last : C.State) : ℕ → C.State → Type 0 where
  now : {s : C.State} → C.recv s ≡ (ok (some raw), last) → Arrives C raw last 0 s
  later :
      {n : ℕ} {s next : C.State}
      → C.recv s ≡ (ok none, next)
      → Arrives C raw last n next
      → Arrives C raw last (suc n) s

-- What the bytes are: with what is left in the buffer they are the complete answer to a command, in
-- which no pager stops, and the Telnet protocol asks for no reply.
pub record IsAnswer (C : Conn) (buffer raw : Bytes) (text : Str) (remaining : Bytes) : Type 0 where
  pub visible : Bytes
  pub not_closed : is_empty raw ≡ false
  pub consumed : consume_protocol buffer raw ≡ ((visible, []), remaining)
  pub normalized : normalize_stream_text (C.decode visible) ≡ text
  pub no_pager : count_matches pager_prompt 0 text ≡ 0
  pub nothing : C.decode [] ≡ []

-- A session that waits at its prompt.
abbrev pub logged_in : (C : Conn) → Str → Bytes → C.State → World C
logged_in C prompt buffer s = record {
  remote = s;
  connected = true;
  prompt = some prompt;
  protocol_buffer = buffer;
}

abbrev pub command_output : Str → Str → CliCommandOutput
command_output command output = record { command = command; output = output }

-- An action that returns, and what comes behind it.
bind_step :
    {S A B : Type 0} {s s' : S} {a : A} (m : Exec S A) (f : A → Exec S B)
    → m s ≡ (ok a, s')
    → (m >>= f) s ≡ f a s'
unfolding ◌>>=◌
bind_step {S = S} {A = A} m f h = ap (λ (q : Result A × S). continue q.0 f q.1) h

module _ (C : Conn) (prompt text : Str) (stops : Stops) (buffer raw remaining : Bytes)
    (last : C.State) (answer : IsAnswer C buffer raw text remaining)
    (ends : ends_with_prompt text prompt ≡ true) (waits : ends_with_prompt [] prompt ≡ false) where
  abbrev at : C.State → World C
  at s = logged_in C prompt buffer s

  abbrev after : World C
  after = logged_in C prompt remaining last

  abbrev complete : Answer
  complete = record { output = text; ready = at_prompt; prompt = some prompt }

  stopped_nothing : (stops : Stops) → stopped (some prompt) stops [] ≡ none
  unfolding search
  stopped_nothing [] = refl
  stopped_nothing ((name, pattern) ∷ stops) = stopped_nothing stops

  nothing_received : {w : World C} → received C none w ≡ (ok [], w)
  unfolding received ◌>>=◌
  nothing_received = refl

  recv_lem :
      (s : C.State) (r : Option Bytes) (next : C.State)
      → C.recv s ≡ (ok r, next)
      → on_conn C C.recv (at s) ≡ (ok r, at next)
  unfolding on_conn
  recv_lem s r next e = ap (λ (q : Result (Option Bytes) × C.State). (q.0, at q.1)) e

  received_lem : (raw : Bytes) → is_empty raw ≡ false → received C (some raw) ≡ consume C raw
  unfolding received
  received_lem [] h = absurd cc
  received_lem (b ∷ bytes) h = refl

  consume_lem : consume C raw (at last) ≡ (ok answer.visible, after)
  unfolding consume ◌>>=◌
  consume_lem = rw answer.consumed refl

  -- The rest of the round that gets the answer, and of one that gets nothing.
  ready_lem :
      (again : Bytes → ℕ → Exec (World C) Answer)
      → (continue_pagers C
              (count_matches pager_prompt 0 (normalize_stream_text (C.decode answer.visible)) - 0)
              0
            >>= λ handled.
                end_round C
                  (decide (some prompt) stops (normalize_stream_text (C.decode answer.visible)))
                  (again
                    (newlines (
                      count_matches pager_prompt 0 (normalize_stream_text (C.decode answer.visible))
                      - 0))
                    handled))
          after
        ≡ (ok complete, after)
  unfolding continue_pagers decide ◌>>=◌
  ready_lem again = rw (answer.normalized, answer.no_pager, ends) refl

  silent_lem :
      (again : Bytes → ℕ → Exec (World C) Answer) (w : World C)
      → (continue_pagers C
              (count_matches pager_prompt 0 (normalize_stream_text (C.decode [])) - 0)
              0
            >>= λ handled.
                end_round C (decide (some prompt) stops (normalize_stream_text (C.decode []))) (
                  again
                    (newlines
                      (count_matches pager_prompt 0 (normalize_stream_text (C.decode [])) - 0))
                    handled))
          w
        ≡ again [] 0 w
  unfolding continue_pagers decide ◌>>=◌ count_matches normalize_stream_text without_escapes
      normalize_newlines
  silent_lem again w = rw (answer.nothing, waits, stopped_nothing stops) refl

  rounds_lem :
      (n fuel : ℕ) (s : C.State)
      → n < fuel
      → Arrives C raw last n s
      → read_rounds C (some prompt) stops fuel [] 0 (at s) ≡ (ok complete, after)
  unfolding read_rounds
  rounds_lem n zero s h arrives = absurd (omega arith)
  rounds_lem zero (suc fuel) s h (now e) =
      bind_step _ _ (recv_lem s (some raw) last e)
      ∙ (bind_step _ _ (
            ap (λ (m : Exec (World C) Bytes). m (at last)) (received_lem raw answer.not_closed)
            ∙ consume_lem)
          ∙ ready_lem (λ more handled.
            read_rounds C (some prompt) stops fuel (answer.visible ++ more) handled))
  rounds_lem (suc n) (suc fuel) s h (later {next = next} e arrives) =
      bind_step _ _ (recv_lem s none next e)
      ∙ (bind_step _ _ nothing_received
          ∙ (silent_lem (λ more handled. read_rounds C (some prompt) stops fuel more handled)
                (at next)
              ∙ rounds_lem n fuel next (omega (arith, h)) arrives))

module _ (C : Conn) (command prompt : Str) (body : List Str) (buffer raw remaining : Bytes)
    (last : C.State) where
  write_lem :
      (s next : C.State)
      → C.sendall (C.encode (command ++ (13 ∷ 10 ∷ []))) s ≡ (ok tt, next)
      → write_line C command (logged_in C prompt buffer s) ≡ (ok tt, logged_in C prompt buffer next)
  unfolding write_line write_raw on_conn ◌>>=◌
  write_lem s next e =
      ap (λ (q : Result (Unit {0}) × C.State). (q.0, logged_in C prompt buffer q.1)) e

  read_lem :
      (stops : Stops) (n : ℕ) (s : C.State)
      → IsTyped command
      → IsTyped prompt
      → All IsLine body
      → IsAnswer C buffer raw (exchange command body prompt) remaining
      → n < C.rounds s
      → Arrives C raw last n s
      → read_until_ready C (some prompt) stops (logged_in C prompt buffer s) ≡ (
        ok (record {
          output = exchange command body prompt;
          ready = at_prompt;
          prompt = some prompt;
        }),
        logged_in C prompt remaining last,
      )
  unfolding read_until_ready
  read_lem stops n s hc hp hb answer enough arrives =
      rounds_lem C prompt (exchange command body prompt) stops buffer raw remaining last answer
        (exchange-ends command prompt body hc hp hb) (nothing-ends prompt hp) n (C.rounds s) s
        enough arrives

  finish_lem :
      IsTyped command
      → IsTyped prompt
      → All IsLine body
      → (confirmed C prompt (record {
        output = exchange command body prompt;
        ready = at_prompt;
        prompt = some prompt;
      })
            >>= λ output.
                pure (command_output command (strip_command_envelope output command prompt)))
          (logged_in C prompt remaining last)
        ≡ (ok (command_output command (answer_of body)), logged_in C prompt remaining last)
  unfolding ◌>>=◌
  finish_lem hc hp hb = rw (strip_command_envelope-exchange command prompt body hc hp hb) refl

-- A command gets its answer: where the socket takes the command, and then times out `n` times and gives
-- bytes that decode to the echo of the command, the lines of the body and the prompt, with no pager in
-- them and no Telnet reply to send, `run_command` returns the body, as long as more than `n` rounds begin
-- before the deadline. The command, the prompt and the lines are as in the theorem on the envelope.
pub run_command-answers :
    (C : Conn) (command prompt : Str) (body : List Str) (buffer raw remaining : Bytes) (n : ℕ)
    (s next last : C.State)
    → IsTyped command
    → IsTyped prompt
    → All IsLine body
    → IsAnswer C buffer raw (exchange command body prompt) remaining
    → C.sendall (C.encode (command ++ (13 ∷ 10 ∷ []))) s ≡ (ok tt, next)
    → n < C.rounds next
    → Arrives C raw last n next
    → run_command C command (logged_in C prompt buffer s)
      ≡ (ok (command_output command (answer_of body)), logged_in C prompt remaining last)
unfolding run_command
run_command-answers C command prompt body buffer raw remaining n s next last hc hp hb answer sent
      enough arrives =
    bind_step _ _ (write_lem C command prompt body buffer raw remaining last s next sent)
    ∙ (bind_step _ _ (
          read_lem C command prompt body buffer raw remaining last
            ((at_confirmation, yes_no_confirm_prompt) ∷ []) n next hc hp hb answer enough arrives)
        ∙ finish_lem C command prompt body buffer raw remaining last hc hp hb)

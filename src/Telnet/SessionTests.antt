-- ===== src/Telnet/SessionTests.antt =====
-- A scripted socket, runs of the session on it, and the theorems at concrete inputs.
use device_cli_tool.Base.{
  true, false, Option, none, some, List, [], ◌∷◌, ◌≡◌, refl, arith, ok, err, permission_error,
}
use device_cli_tool.Base.Exec.{◌>>=◌}
use device_cli_tool.Text.{
  Str, codes, strip, lstrip, rstrip, join, starts_with, normalize_newlines, split_on,
}
use device_cli_tool.Parsers.LineCardStatus.{split_lines}
use device_cli_tool.Telnet.Protocol.{Bytes, consume_protocol, consume_telnet_bytes}
use device_cli_tool.Telnet.Readiness.{
  without_escapes, normalize_stream_text, detect_prompt, ends_with_prompt, strip_command_envelope,
}
use device_cli_tool.Telnet.Readiness.Envelope.{
  IsTyped, exchange, answer_of, strip_command_envelope-exchange,
}
use device_cli_tool.Telnet.Patterns.{
  pager_prompt, login_prompt, password_prompt, yes_no_confirm_prompt, search, count_matches,
}
use device_cli_tool.Telnet.Options.{TelnetCliTransport, check_session}
use device_cli_tool.Telnet.Reader.{
  Conn, World, decide, on_conn, write_raw, write_line, consume, received, continue_pagers,
  read_rounds, read_until_ready,
}
use device_cli_tool.Telnet.Session.{
  after_banner, after_login, establish, log_in, close_open, close, open_new, connect, run_command,
  command_loop, run_commands, transport_run,
}
use device_cli_tool.Telnet.Session.Closed.{transport_run-IsClosed}
use device_cli_tool.Telnet.Session.Answers.{
  now, later, IsAnswer, logged_in, command_output, run_command-answers,
}

abbrev next_result : List (Option Bytes) → Option Bytes × List (Option Bytes)
next_result [] = (some [], [])
next_result (r ∷ results) = (r, results)

-- Its state is what `recv` has still to give; five rounds fit before a deadline.
abbrev socket : Conn
socket = record {
  State = List (Option Bytes);
  create_connection = λ s. (ok tt, s);
  recv = λ s. let (r, rest) = next_result s in (ok r, rest);
  sendall = λ bytes s. (ok tt, s);
  close = λ s. (ok tt, s);
  rounds = λ s. 5;
  decode = λ bytes. bytes;
  encode = λ text. text;
}

abbrev show : Str
show = codes "show"

abbrev sw : Str
sw = codes "SW#"

abbrev body : List Str
body = codes "version 1 " ∷ codes "" ∷ codes "up" ∷ []

abbrev raw_answer : Bytes
raw_answer = codes "show\r\nversion 1 \r\n\r\nup\r\nSW#"

show-IsTyped : IsTyped show
unfolding strip lstrip rstrip
show-IsTyped = record { is_line = refl; stripped = refl; not_blank = refl }

sw-IsTyped : IsTyped sw
unfolding strip lstrip rstrip
sw-IsTyped = record { is_line = refl; stripped = refl; not_blank = refl }

strip_command_envelope-exchange_example :
    strip_command_envelope (exchange show body sw) show sw ≡ answer_of body
strip_command_envelope-exchange_example =
    strip_command_envelope-exchange show sw body show-IsTyped sw-IsTyped (refl, (refl, (refl, tt)))

answer_text : answer_of body ≡ codes "version 1\n\nup"
unfolding strip lstrip rstrip join
answer_text = refl

raw-IsAnswer : IsAnswer socket [] raw_answer (exchange show body sw) []
unfolding consume_protocol consume_telnet_bytes normalize_stream_text without_escapes
    normalize_newlines join count_matches pager_prompt
raw-IsAnswer = record {
  visible = raw_answer;
  not_closed = refl;
  consumed = refl;
  normalized = refl;
  no_pager = refl;
  nothing = refl;
}

run_command-answers_example :
    run_command socket show (logged_in socket sw [] (none ∷ some raw_answer ∷ []))
    ≡ (ok (command_output show (answer_of body)), logged_in socket sw [] [])
run_command-answers_example =
    run_command-answers socket show sw body [] raw_answer [] 1 (none ∷ some raw_answer ∷ [])
      (none ∷ some raw_answer ∷ []) [] show-IsTyped sw-IsTyped (refl, (refl, (refl, tt)))
      raw-IsAnswer refl (omega arith) (later refl (now refl))

abbrev transport : TelnetCliTransport
transport = record {
  host = codes "192.0.2.1";
  username = codes "admin";
  password = codes "secret";
  port = 23;
  timeout_positive = true;
  allow_insecure_telnet = true;
}

abbrev new_session : List (Option Bytes) → World socket
new_session results = record {
  remote = results;
  connected = false;
  prompt = none;
  protocol_buffer = [];
}

abbrev dialog : List (Option Bytes)
dialog =
    some (codes "login: ")
    ∷ some (codes "Password: ")
    ∷ none
    ∷ some (codes "\r\nSW# ")
    ∷ some raw_answer
    ∷ []

-- The login and a command, and then the session is closed.
dialog_run :
    transport_run socket transport (show ∷ []) (new_session dialog)
    ≡ (ok (command_output show (codes "version 1\n\nup") ∷ []), new_session [])
unfolding transport_run check_session ◌>>=◌ connect open_new on_conn log_in read_until_ready
    read_rounds received consume consume_protocol consume_telnet_bytes normalize_stream_text
    without_escapes normalize_newlines count_matches pager_prompt continue_pagers decide
    detect_prompt ends_with_prompt strip lstrip rstrip split_on starts_with search login_prompt
    password_prompt yes_no_confirm_prompt after_banner after_login write_line write_raw establish
    run_commands command_loop run_command strip_command_envelope split_lines join close close_open
dialog_run = refl

transport_run-IsClosed_example :
    ((transport_run socket transport (show ∷ []) (new_session dialog)).1.connected ≡ false)
    × (true ≡ false
        → transport_run socket transport (show ∷ []) (new_session dialog) ≡ (
          err (
              permission_error
                "Telnet is plaintext; set allow_insecure_telnet=True only for an isolated lab"),
          new_session dialog,
        ))
transport_run-IsClosed_example =
    transport_run-IsClosed socket transport (show ∷ []) (new_session dialog) (λ s. refl) refl

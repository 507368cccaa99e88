-- ===== src/Serial/Tests.antt =====
-- A login over a serial port, a command, and the logout.
use device_cli_tool.Base.{true, false, ◌≡◌, refl, none, some, List, [], ◌∷◌, length, ok}
use device_cli_tool.Base.Exec.{◌>>=◌}
use device_cli_tool.Text.{
  codes, is_space, strip, lstrip, rstrip, join, split_on, starts_with, normalize_newlines,
}
use device_cli_tool.Parsers.LineCardStatus.{split_lines}
use device_cli_tool.Netconf.Model.{fraction}
use device_cli_tool.Telnet.Protocol.{Bytes}
use device_cli_tool.Telnet.Readiness.{
  normalize_stream_text, without_escapes, detect_prompt, ends_with_prompt, strip_command_envelope,
}
use device_cli_tool.Telnet.Patterns.{
  login_prompt, serial_login_prompt, serial_password_prompt, yes_no_confirm_prompt,
  logout_confirm_prompt, pager_prompt, search, count_matches,
}
use device_cli_tool.Telnet.Reader.{decide}
use device_cli_tool.Ssh.Session.{normalize_cli_output}
use device_cli_tool.Serial.{SerialCliTransport, Port, World}
use device_cli_tool.Serial.Session.{
  on_port, write_raw, write_line, available_rounds, read_available, poll, continue_pagers,
  read_rounds, read_until_ready, after_banner, after_login, establish, open_new, connect,
  run_command, command_loop, run_commands, log_out, close_open, close, transport_run,
}
use device_cli_tool.Serial.Closed.{run-IsClosed}

abbrev first_chunk : List Bytes → Bytes × List Bytes
first_chunk [] = ([], [])
first_chunk (chunk ∷ chunks) = (chunk, chunks)

-- Its state is what has still to be read, in the pieces that come in.
abbrev console : Port
console = record {
  State = List Bytes;
  open_port = λ s. (ok tt, s);
  in_waiting = λ s. (ok (length (first_chunk s).0), s);
  read = λ n s. let (chunk, rest) = first_chunk s in (ok chunk, rest);
  write = λ bytes s. (ok tt, s);
  is_open = λ s. true;
  close_port = λ s. (ok tt, s);
  rounds = λ s. 4;
  available_rounds = λ s. 4;
  idle_rounds = λ s. 2;
  decode = λ bytes. bytes;
  encode = λ text. text;
}

abbrev transport : SerialCliTransport
transport = record {
  port = codes "COM5";
  username = codes "admin";
  password = codes "secret";
  baudrate = 115200;
  timeout = fraction 15 0;
}

abbrev session : List Bytes → World console
session chunks = record { remote = chunks; connected = false; prompt = none }

abbrev dialog : List Bytes
dialog =
    codes "login: "
    ∷ codes "Password: "
    ∷ codes "SW# "
    ∷ codes "show\r\nup\r\nSW# "
    ∷ codes "logout system now (y/n)?"
    ∷ []

transport_run-dialog : transport_run console transport (codes "show" ∷ []) (session dialog) ≡ (
  ok (record { command = codes "show"; output = codes "up" } ∷ []),
  record { remote = []; connected = false; prompt = some (codes "SW#") },
)
unfolding transport_run connect open_new on_port write_raw write_line read_until_ready read_rounds
    poll continue_pagers decide after_banner after_login establish run_commands command_loop
    run_command close close_open log_out read_available available_rounds normalize_cli_output
    normalize_stream_text without_escapes normalize_newlines count_matches pager_prompt
    detect_prompt ends_with_prompt strip lstrip rstrip split_on starts_with search
    serial_login_prompt serial_password_prompt yes_no_confirm_prompt logout_confirm_prompt
    strip_command_envelope split_lines join ◌>>=◌
transport_run-dialog = refl

run-IsClosed_example :
    (transport_run console transport (codes "show" ∷ []) (session dialog)).1.connected ≡ false
run-IsClosed_example =
    run-IsClosed console transport (codes "show" ∷ []) (session dialog) (λ s. refl)

-- A mark that Telnet takes behind `login`, and the serial console does not.
login-marks :
    (search serial_login_prompt (codes "login>") ≡ false)
    × (search serial_login_prompt (codes "Login :") ≡ true)
    × (search login_prompt (codes "login>") ≡ true)
unfolding search serial_login_prompt login_prompt is_space
login-marks = (refl, refl, refl)

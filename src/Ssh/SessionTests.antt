-- ===== src/Ssh/SessionTests.antt =====
-- Runs of a session with a device that answers, and the end of one whose connection is broken.
use device_cli_tool.Base.{
  Bool, true, false, not, ◌≡◌, refl, Option, none, some, List, [], ◌∷◌, is_empty, ok, err, os_error,
  if◌then◌else◌,
}
use device_cli_tool.Base.Exec.{◌>>=◌}
use device_cli_tool.Text.{
  Str, codes, strip, lstrip, rstrip, join, split_on, starts_with, normalize_newlines,
}
use device_cli_tool.Parsers.LineCardStatus.{split_lines}
use device_cli_tool.Telnet.Protocol.{Bytes}
use device_cli_tool.Telnet.Readiness.{
  normalize_stream_text, without_escapes, detect_prompt, ends_with_prompt, strip_command_envelope,
}
use device_cli_tool.Telnet.Patterns.{
  yes_no_confirm_prompt, logout_confirm_prompt, pager_prompt, search, count_matches,
}
use device_cli_tool.Telnet.Reader.{decide}
use device_cli_tool.Ssh.Connect.{attempts}
use device_cli_tool.Ssh.Session.{
  SshClient, Session, on_ssh, normalize_cli_output, available_rounds, read_available, log_out, poll,
  continue_pagers, read_rounds, read_until_ready, close_shell, close_client, close, is_healthy,
  open_shell, connect_new, connect,
}
use device_cli_tool.Ssh.Session.Run.{
  run_command, command_loop, run_commands, check_session, client_run,
}
use device_cli_tool.Ssh.Session.Closed.{Closes, close-Closes}

abbrev first_chunk : List Bytes → Bytes × List Bytes
first_chunk [] = ([], [])
first_chunk (chunk ∷ chunks) = (chunk, chunks)

-- Its state is what `recv` has still to give. `works` says whether `send` does.
abbrev device : Bool → SshClient
device works = record {
  State = List Bytes;
  configure = λ s. (ok tt, s);
  connect_client = λ s. (ok tt, s);
  invoke_shell = λ s. (ok tt, s);
  recv_ready = λ s. (ok (not (is_empty s)), s);
  recv = λ s. let (chunk, rest) = first_chunk s in (ok chunk, rest);
  is_closed = λ s. false;
  send = λ text s. ((if works then ok tt else err (os_error "broken")), s);
  close_channel = λ s. (ok tt, s);
  has_transport = λ s. true;
  is_active = λ s. true;
  close_transport = λ s. (ok tt, s);
  close_client = λ s. (ok tt, s);
  rounds = λ s. 5;
  available_rounds = λ s. 5;
  idle_rounds = λ s. 2;
  decode = λ bytes. bytes;
}

abbrev session : (works : Bool) → Bool → Option Str → List Bytes → Session (device works)
session works is_open prompt chunks = record {
  remote = chunks;
  client = is_open;
  channel = is_open;
  prompt = prompt;
  connect_attempts_used = 1;
}

-- The logout cannot be sent: the client stays.
close-broken : close (device false) true (session false true (some (codes "SW#")) []) ≡ (
  err (os_error "broken"),
  record {
    remote = [];
    client = true;
    channel = false;
    prompt = some (codes "SW#");
    connect_attempts_used = 1;
  },
)
unfolding close close_shell log_out on_ssh ◌>>=◌
close-broken = refl

close-Closes_example : Closes (device false) true (session false true (some (codes "SW#")) [])
close-Closes_example =
    close-Closes (device false) true (session false true (some (codes "SW#")) []) (λ s. refl)

-- A new session connects, runs a command that asks for a confirmation, and logs out.
abbrev dialog : List Bytes
dialog = codes "SW# " ∷ codes "save\r\nconfirm [y/n]" ∷ codes "saved\r\nSW# " ∷ []

client_run-dialog :
    client_run (device true) 3 false (codes "save" ∷ []) (session true false none dialog) ≡ (
      ok (record { command = codes "save"; output = codes "confirm [y/n]\nsaved" } ∷ []),
      session true false (some (codes "SW#")) [],
    )
unfolding client_run check_session connect is_healthy connect_new attempts open_shell on_ssh
    read_until_ready read_rounds poll continue_pagers decide run_commands command_loop run_command
    close close_shell close_client log_out read_available available_rounds normalize_cli_output
    normalize_stream_text without_escapes normalize_newlines count_matches pager_prompt
    detect_prompt ends_with_prompt strip lstrip rstrip split_on starts_with search
    yes_no_confirm_prompt logout_confirm_prompt strip_command_envelope split_lines join ◌>>=◌
client_run-dialog = refl

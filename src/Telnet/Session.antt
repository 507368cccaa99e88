-- ===== src/Telnet/Session.antt =====
-- `TelnetCliSession` and `TelnetCliTransport` of cli_tool/transport/telnet.py.
pub mod Closed
pub mod Answers
use device_cli_tool.Base.{
  ℕ, zero, suc, ◌-◌, Bool, true, false, not, ◌&&◌, ◌||◌, Option, none, some, List, [], ◌∷◌, ◌++◌,
  ltb, leb, if◌then◌else◌, is_empty, is_none, Error, Result, ok, err, value_error, permission_error,
  runtime_error, connection_error, timeout_error, is_os_error,
}
use device_cli_tool.Base.Exec.{
  Exec, pure, raise, lift, gets, modify, ◌>>=◌, ◌>>◌, try_except, try_reraise, try_finally,
}
use device_cli_tool.Text.{Str, codes, join}
use device_cli_tool.Workflows.Verify.{CliCommandOutput}
use device_cli_tool.Telnet.Protocol.{Bytes, consume_protocol}
use device_cli_tool.Telnet.Readiness.{
  normalize_stream_text, detect_prompt, ends_with_prompt, strip_command_envelope,
}
use device_cli_tool.Telnet.Patterns.{
  Pattern, login_prompt, password_prompt, yes_no_confirm_prompt, pager_prompt, search,
  count_matches,
}
use device_cli_tool.Telnet.Options.{TelnetCliTransport, check_session}
use device_cli_tool.Telnet.Reader.{
  Conn, World, Answer, Ready, at_login, at_password, at_confirmation, is_login, is_password,
  is_confirmation, is_prompt, on_conn, write_line, read_until_ready,
}

module _ (C : Conn) where
  -- The last steps of the login: the user name, and the password.
  unfoldable pub after_banner : Str → Answer → Exec (World C) Answer
  after_banner username banner =
      if not (is_login banner.ready)
      then pure banner
      else do write_line C username; read_until_ready C none ((at_password, password_prompt) ∷ [])

  unfoldable pub after_login : Str → Answer → Exec (World C) Answer
  after_login password login =
      if not (is_password login.ready)
      then pure login
      else do write_line C password; read_until_ready C none []

  set_prompt : Option Str → Exec (World C) (Unit {0})
  set_prompt prompt = modify (λ w. record w { prompt = prompt })

  unfoldable pub establish : Answer → Exec (World C) (Unit {0})
  unfolding set_prompt
  establish answer =
      if not (is_prompt answer.ready) || is_none answer.prompt
      then raise (runtime_error "Telnet CLI prompt was not established")
      else set_prompt answer.prompt

  unfoldable pub log_in : Str → Str → Exec (World C) (Unit {0})
  log_in username password = do
    banner ←
        read_until_ready C none ((at_login, login_prompt) ∷ (at_password, password_prompt) ∷ [])
    login ← after_banner username banner
    answer ← after_login password login
    establish answer

  abbrev pub reset : World C → World C
  reset w = record w { connected = false; prompt = none; protocol_buffer = [] }

  -- `except OSError: pass`
  abbrev pub passed_over : Error → Exec (World C) (Unit {0})
  passed_over e = if is_os_error e then pure tt else raise e

  abbrev pub say_exit : Bool → Exec (World C) (Unit {0})
  say_exit logout = if logout then try_except (write_line C (codes "exit")) passed_over else pure tt

  unfoldable pub close_open : Bool → Exec (World C) (Unit {0})
  close_open logout = try_finally (say_exit logout) (do on_conn C C.close; modify reset)

  unfoldable pub close : Bool → Exec (World C) (Unit {0})
  close logout w = if w.connected then close_open logout w else (ok tt, w)

  unfoldable pub open_new : Str → Str → Exec (World C) (Unit {0})
  open_new username password = do
    on_conn C C.create_connection
    modify (λ w. record w { connected = true })
    try_reraise (log_in username password) (close false)

  unfoldable pub connect : Str → Str → Exec (World C) (Unit {0})
  connect username password w = if w.connected then (ok tt, w) else open_new username password w

  -- The answer to a confirmation.
  abbrev pub confirmed : Str → Answer → Exec (World C) Str
  confirmed prompt answer = if not (is_confirmation answer.ready) then pure answer.output else do
    write_line C (codes "y")
    more ← read_until_ready C (some prompt) []
    pure (join (10 ∷ []) (answer.output ∷ more.output ∷ []))

  abbrev pub run_at : Str → Option Str → Exec (World C) CliCommandOutput
  run_at command none = raise (runtime_error "Telnet CLI prompt was not established")
  run_at command (some prompt) = do
    write_line C command
    answer ← read_until_ready C (some prompt) ((at_confirmation, yes_no_confirm_prompt) ∷ [])
    output ← confirmed prompt answer
    pure (record { command = command; output = strip_command_envelope output command prompt })

  unfoldable pub run_command : Str → Exec (World C) CliCommandOutput
  run_command command w =
      if w.connected
      then run_at command w.prompt w
      else (err (runtime_error "Telnet connection is not available"), w)

  unfoldable pub command_loop : List Str → Exec (World C) (List CliCommandOutput)
  command_loop [] = pure []
  command_loop (command ∷ commands) = do
    output ← run_command command
    outputs ← command_loop commands
    pure (output ∷ outputs)

  unfoldable pub run_commands : Str → Str → List Str → Exec (World C) (List CliCommandOutput)
  run_commands username password commands = do connect username password; command_loop commands

  abbrev pub session_body : TelnetCliTransport → List Str → Exec (World C) (List CliCommandOutput)
  session_body t commands =
      try_finally (do connect t.username t.password; run_commands t.username t.password commands)
        (close true)

  -- `TelnetCliTransport.run_commands`, on a session that is new.
  abbrev pub run_session : TelnetCliTransport → List Str → Exec (World C) (List CliCommandOutput)
  run_session t commands = do lift (check_session t); session_body t commands

  unfoldable pub transport_run :
      TelnetCliTransport → List Str → Exec (World C) (List CliCommandOutput)
  transport_run t commands =
      if not t.allow_insecure_telnet
      then raise (
          permission_error
            "Telnet is plaintext; set allow_insecure_telnet=True only for an isolated lab")
      else run_session t commands

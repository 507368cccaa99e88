-- ===== src/Ssh/Session/Run.antt =====
-- The methods of `SshCliSession` and `SshCliClient` that run commands, of cli_tool/transport/ssh.py.
use device_cli_tool.Base.{
  ℕ, Bool, true, not, Option, none, some, List, [], ◌∷◌, ltb, if◌then◌else◌, Result, ok, err,
  value_error, runtime_error, ◌++◌,
}
use device_cli_tool.Base.Exec.{Exec, pure, raise, lift, gets, ◌>>=◌, ◌>>◌, try_finally}
use device_cli_tool.Text.{Str, codes, join}
use device_cli_tool.Workflows.Verify.{CliCommandOutput}
use device_cli_tool.Telnet.Readiness.{strip_command_envelope}
use device_cli_tool.Telnet.Patterns.{yes_no_confirm_prompt}
use device_cli_tool.Telnet.Reader.{Answer, at_confirmation, is_confirmation}
use device_cli_tool.Ssh.Session.{SshClient, Session, on_ssh, read_until_ready, connect, close}

module _ (K : SshClient) where
  -- The answer to a confirmation.
  abbrev pub confirmed : Str → Answer → Exec (Session K) Str
  confirmed prompt answer = if not (is_confirmation answer.ready) then pure answer.output else do
    on_ssh K (K.send (codes "y\n"))
    more ← read_until_ready K (some prompt) []
    pure (join (10 ∷ []) (answer.output ∷ more.output ∷ []))

  -- The output, and whether the command was confirmed.
  abbrev pub run_at : Str → Option Str → Exec (Session K) (Str × Bool)
  run_at command none = raise (runtime_error "SSH CLI prompt was not established")
  run_at command (some prompt) = do
    on_ssh K (K.send (command ++ (10 ∷ [])))
    answer ← read_until_ready K (some prompt) ((at_confirmation, yes_no_confirm_prompt) ∷ [])
    output ← confirmed prompt answer
    pure (strip_command_envelope output command prompt, is_confirmation answer.ready)

  unfoldable pub run_command : Str → Exec (Session K) (Str × Bool)
  run_command command w =
      if w.channel
      then run_at command w.prompt w
      else (err (runtime_error "SSH channel is not available"), w)

  unfoldable pub command_loop : List Str → Exec (Session K) (List CliCommandOutput)
  command_loop [] = pure []
  command_loop (command ∷ commands) = do
    result ← run_command command
    outputs ← command_loop commands
    pure (record { command = command; output = result.0 } ∷ outputs)

  unfoldable pub run_commands : ℕ → List Str → Exec (Session K) (List CliCommandOutput)
  run_commands connect_attempts commands = do
    connect K connect_attempts
    has_channel ← gets (λ (w : Session K). w.channel)
    if has_channel
        then command_loop commands
        else raise (runtime_error "SSH channel is not available")

  -- The checks of the constructor.
  unfoldable pub check_session : ℕ → Bool → Result (Unit {0})
  check_session connect_attempts backoff_negative =
      if ltb connect_attempts 1
      then err (value_error "connect_attempts must be at least 1")
      else if backoff_negative
      then err (value_error "retry_backoff_seconds must be at least 0")
      else ok tt

  abbrev pub session_body : ℕ → List Str → Exec (Session K) (List CliCommandOutput)
  session_body connect_attempts commands =
      try_finally (do connect K connect_attempts; run_commands connect_attempts commands)
        (close K true)

  -- `SshCliClient.run_commands`, on a session that is new.
  unfoldable pub client_run : ℕ → Bool → List Str → Exec (Session K) (List CliCommandOutput)
  client_run connect_attempts backoff_negative commands = do
    lift (check_session connect_attempts backoff_negative)
    session_body connect_attempts commands

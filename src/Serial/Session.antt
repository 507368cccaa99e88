-- ===== src/Serial/Session.antt =====
-- `SerialCliSession` of cli_tool/transport/serial.py, and `SerialCliTransport.run_commands`.
use device_cli_tool.Base.{
  ℕ, zero, suc, ◌-◌, Bool, true, false, not, ◌&&◌, ◌||◌, Option, none, some, List, [], ◌∷◌, ◌++◌,
  leb, if◌then◌else◌, is_none, ok, err, runtime_error, connection_error, timeout_error,
}
use device_cli_tool.Base.Exec.{Exec, pure, raise, gets, modify, ◌>>=◌, ◌>>◌, try_finally}
use device_cli_tool.Text.{Str, codes, join}
use device_cli_tool.Workflows.Verify.{CliCommandOutput}
use device_cli_tool.Telnet.Protocol.{Bytes}
use device_cli_tool.Telnet.Readiness.{normalize_stream_text, strip_command_envelope}
use device_cli_tool.Telnet.Patterns.{
  serial_login_prompt, serial_password_prompt, yes_no_confirm_prompt, logout_confirm_prompt,
  pager_prompt, search, count_matches,
}
use device_cli_tool.Telnet.Reader.{
  Answer, Stops, at_login, at_password, at_confirmation, is_login, is_password, is_confirmation,
  is_prompt, decide, newlines,
}
use device_cli_tool.Ssh.Session.{normalize_cli_output}
use device_cli_tool.Serial.{SerialCliTransport, Port, World}

module _ (P : Port) where
  unfoldable pub on_port : {A : Type 0} → Exec P.State A → Exec (World P) A
  on_port action w = let (r, s) = action w.remote in (r, record w { remote = s })

  -- What is not done without a connection.
  abbrev pub connected_only : {A : Type 0} → Exec (World P) A → Exec (World P) A
  connected_only action w =
      if w.connected
      then action w
      else (err (runtime_error "serial connection is not available"), w)

  unfoldable pub write_raw : Str → Exec (World P) (Unit {0})
  write_raw value = connected_only (on_port (P.write (P.encode value)))

  unfoldable pub write_line : Str → Exec (World P) (Unit {0})
  write_line value = write_raw (value ++ (13 ∷ 10 ∷ []))

  abbrev pub available_round :
      ℕ → (ℕ → Bytes → Exec (World P) Str) → Exec (World P) Str → Exec (World P) Str
  available_round zero more idle = idle
  available_round (suc waiting) more idle = do
    chunk ← on_port (P.read (suc waiting))
    idle_rounds ← gets (λ (w : World P). P.idle_rounds w.remote)
    more idle_rounds chunk

  -- The loop of `_read_available`.
  unfoldable pub available_rounds : ℕ → ℕ → Bytes → Exec (World P) Str
  available_rounds zero idle chunks = pure (normalize_cli_output (P.decode chunks))
  available_rounds (suc left) zero chunks = pure (normalize_cli_output (P.decode chunks))
  available_rounds (suc left) (suc idle) chunks = do
    waiting ← on_port P.in_waiting
    available_round waiting (λ idle' chunk. available_rounds left idle' (chunks ++ chunk))
        (available_rounds left idle chunks)

  unfoldable pub read_available : Exec (World P) Str
  read_available =
      connected_only
        λ w. available_rounds (P.available_rounds w.remote) (P.idle_rounds w.remote) [] w

  -- The beginning of a round: how much there is to read, and whether the port is open.
  abbrev pub polled : ℕ → Bool → Exec (World P) Bytes
  polled (suc waiting) is_open = on_port (P.read (suc waiting))
  polled zero false =
      raise (connection_error "serial connection closed before CLI output became ready")
  polled zero true = pure []

  unfoldable pub poll : Exec (World P) Bytes
  poll = do
    waiting ← on_port P.in_waiting
    is_open ← gets (λ (w : World P). P.is_open w.remote)
    polled waiting is_open

  -- `while handled_pagers < pager_count`, with the difference of the two.
  unfoldable pub continue_pagers : ℕ → ℕ → Exec (World P) ℕ
  continue_pagers zero handled = pure handled
  continue_pagers (suc more) handled =
      if leb 5 handled
      then raise (runtime_error "CLI pager did not finish after sending continue")
      else do write_raw (codes "c"); continue_pagers more (suc handled)

  abbrev pub end_round : Option Answer → Exec (World P) Answer → Exec (World P) Answer
  end_round none again = again
  end_round (some answer) again = pure answer

  unfoldable pub read_rounds : Option Str → Stops → ℕ → Bytes → ℕ → Exec (World P) Answer
  read_rounds prompt stops zero chunks handled = raise (timeout_error "timed out waiting")
  read_rounds prompt stops (suc left) chunks handled = do
    chunk ← poll
    let output = normalize_stream_text (P.decode (chunks ++ chunk))
    let more = count_matches pager_prompt 0 output - handled
    handled' ← continue_pagers more handled
    end_round (decide prompt stops output)
        (read_rounds prompt stops left (chunks ++ chunk ++ newlines more) handled')

  -- `_read_until_ready`
  unfoldable pub read_until_ready : Option Str → Stops → Exec (World P) Answer
  read_until_ready prompt stops =
      connected_only λ w. read_rounds prompt stops (P.rounds w.remote) [] 0 w

  -- The last steps of the login: the user name, and the password.
  unfoldable pub after_banner : Str → Answer → Exec (World P) Answer
  after_banner username banner = if not (is_login banner.ready) then pure banner else do
    write_line username
    read_until_ready none ((at_password, serial_password_prompt) ∷ [])

  unfoldable pub after_login : Str → Answer → Exec (World P) Answer
  after_login password login =
      if not (is_password login.ready)
      then pure login
      else do write_line password; read_until_ready none []

  unfoldable pub establish : Answer → Exec (World P) (Unit {0})
  establish answer =
      if not (is_prompt answer.ready) || is_none answer.prompt
      then raise (runtime_error "serial CLI prompt was not established")
      else modify (λ w. record w { prompt = answer.prompt })

  unfoldable pub open_new : Str → Str → Exec (World P) (Unit {0})
  open_new username password = do
    on_port P.open_port
    modify (λ w. record w { connected = true })
    write_line []
    banner ←
        read_until_ready none
          ((at_login, serial_login_prompt) ∷ (at_password, serial_password_prompt) ∷ [])
    login ← after_banner username banner
    answer ← after_login password login
    establish answer

  unfoldable pub connect : Str → Str → Exec (World P) (Unit {0})
  connect username password w =
      if w.connected && P.is_open w.remote then (ok tt, w) else open_new username password w

  -- The answer to a confirmation.
  abbrev pub confirmed : Str → Answer → Exec (World P) Str
  confirmed prompt answer = if not (is_confirmation answer.ready) then pure answer.output else do
    write_line (codes "y")
    more ← read_until_ready (some prompt) []
    pure (join (10 ∷ []) (answer.output ∷ more.output ∷ []))

  abbrev pub run_at : Str → Option Str → Exec (World P) CliCommandOutput
  run_at command none = raise (runtime_error "serial CLI prompt was not established")
  run_at command (some prompt) = do
    write_line command
    answer ← read_until_ready (some prompt) ((at_confirmation, yes_no_confirm_prompt) ∷ [])
    output ← confirmed prompt answer
    pure (record { command = command; output = strip_command_envelope output command prompt })

  unfoldable pub run_command : Str → Exec (World P) CliCommandOutput
  run_command command = connected_only λ w. run_at command w.prompt w

  unfoldable pub command_loop : List Str → Exec (World P) (List CliCommandOutput)
  command_loop [] = pure []
  command_loop (command ∷ commands) = do
    output ← run_command command
    outputs ← command_loop commands
    pure (output ∷ outputs)

  unfoldable pub run_commands : Str → Str → List Str → Exec (World P) (List CliCommandOutput)
  run_commands username password commands = do connect username password; command_loop commands

  abbrev pub confirm_logout : Bool → Exec (World P) (Unit {0})
  confirm_logout asked =
      if not asked then pure tt else do write_line (codes "y"); read_available; pure tt

  unfoldable pub log_out : Exec (World P) (Unit {0})
  log_out = do
    write_line (codes "exit")
    output ← read_available
    confirm_logout (search logout_confirm_prompt output)

  abbrev pub say_exit : Bool → Exec (World P) (Unit {0})
  say_exit logout w = if logout && P.is_open w.remote then log_out w else (ok tt, w)

  unfoldable pub close_open : Bool → Exec (World P) (Unit {0})
  close_open logout =
      try_finally (say_exit logout)
        (do on_port P.close_port; modify (λ w. record w { connected = false }))

  unfoldable pub close : Bool → Exec (World P) (Unit {0})
  close logout w = if w.connected then close_open logout w else (ok tt, w)

  -- `SerialCliTransport.run_commands`, on a session that is new.
  unfoldable pub transport_run :
      SerialCliTransport → List Str → Exec (World P) (List CliCommandOutput)
  transport_run t commands =
      try_finally (do connect t.username t.password; run_commands t.username t.password commands)
        (close true)

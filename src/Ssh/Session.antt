-- ===== src/Ssh/Session.antt =====
-- `SshCliClient` and `SshCliSession` of cli_tool/transport/ssh.py. Elapsed times are left out.
pub mod Closed
pub mod Run
use device_cli_tool.Base.{
  ℕ, zero, suc, ◌-◌, Bool, true, false, not, ◌&&◌, Option, none, some, List, [], ◌∷◌, ◌++◌, ◌==◌,
  leb, if◌then◌else◌, is_empty, Error, Result, ok, err, value_error, runtime_error,
  connection_error, timeout_error, raise_if,
}
use device_cli_tool.Base.Exec.{
  Exec, pure, raise, lift, gets, modify, ◌>>=◌, ◌>>◌, try_except, try_finally,
}
use device_cli_tool.Text.{Str, codes, join, strip}
use device_cli_tool.Parsers.LineCardStatus.{split_lines}
use device_cli_tool.Workflows.Verify.{CliCommandOutput}
use device_cli_tool.Telnet.Protocol.{Bytes}
use device_cli_tool.Telnet.Readiness.{
  without_escapes, normalize_stream_text, detect_prompt, ends_with_prompt, strip_command_envelope,
}
use device_cli_tool.Telnet.Patterns.{
  yes_no_confirm_prompt, logout_confirm_prompt, pager_prompt, search, count_matches,
}
use device_cli_tool.Telnet.Reader.{
  Answer, Stops, at_confirmation, is_confirmation, decide, newlines,
}
use device_cli_tool.Ssh.Connect
use device_cli_tool.Ssh.Connect.{Server, attempts}

-- paramiko's client with its shell channel, the clock and the UTF-8 codec. A call of `recv_ready` may
-- change the state, since time passes. `rounds` is the number of rounds that a read begins before its
-- deadline, `available_rounds` that of `_read_available`, and `idle_rounds` the number of rounds with
-- nothing to read that it begins before the idle deadline.
pub record SshClient : Type 1 where
  pub State : Type 0
  pub configure : Exec State (Unit {0})
  pub connect_client : Exec State (Unit {0})
  pub invoke_shell : Exec State (Unit {0})
  pub recv_ready : Exec State Bool
  pub recv : Exec State Bytes
  pub is_closed : State → Bool
  pub send : Str → Exec State (Unit {0})
  pub close_channel : Exec State (Unit {0})
  pub has_transport : State → Bool
  pub is_active : State → Bool
  pub close_transport : Exec State (Unit {0})
  pub close_client : Exec State (Unit {0})
  pub rounds : State → ℕ
  pub available_rounds : State → ℕ
  pub idle_rounds : State → ℕ
  pub decode : Bytes → Str

-- `channel` and `client` say that the attribute is not None.
pub record Session (K : SshClient) : Type 0 where
  pub remote : K.State
  pub client : Bool
  pub channel : Bool
  pub prompt : Option Str
  pub connect_attempts_used : ℕ

-- `normalize_cli_output`
abbrev pub newline_of : ℕ → ℕ
newline_of c = if c == 13 then 10 else c

abbrev pub returns_replaced : Str → Str
returns_replaced [] = []
returns_replaced (c ∷ s) = newline_of c ∷ returns_replaced s

abbrev pub cleaned_lines : List Str → List Str
cleaned_lines [] = []
cleaned_lines (line ∷ lines) =
    let rest = cleaned_lines lines in if is_empty (strip line) then rest else strip line ∷ rest

unfoldable pub normalize_cli_output : Str → Str
normalize_cli_output output =
    join (10 ∷ []) (cleaned_lines (split_lines (returns_replaced (without_escapes 0 output))))

module _ (K : SshClient) where
  unfoldable pub on_ssh : {A : Type 0} → Exec K.State A → Exec (Session K) A
  on_ssh action w = let (r, s) = action w.remote in (r, record w { remote = s })

  abbrev pub available_round :
      Bool → (ℕ → Str → Exec (Session K) Str) → Exec (Session K) Str → Exec (Session K) Str
  available_round false more idle = idle
  available_round true more idle = do
    chunk ← on_ssh K.recv
    idle_rounds ← gets (λ (w : Session K). K.idle_rounds w.remote)
    more idle_rounds (K.decode chunk)

  -- The loop of `_read_available`.
  unfoldable pub available_rounds : ℕ → ℕ → Str → Exec (Session K) Str
  available_rounds zero idle chunks = pure (normalize_cli_output chunks)
  available_rounds (suc left) zero chunks = pure (normalize_cli_output chunks)
  available_rounds (suc left) (suc idle) chunks = do
    ready ← on_ssh K.recv_ready
    available_round ready (λ idle' text. available_rounds left idle' (chunks ++ text))
        (available_rounds left idle chunks)

  unfoldable pub read_available : Exec (Session K) Str
  read_available w = available_rounds (K.available_rounds w.remote) (K.idle_rounds w.remote) [] w

  abbrev pub confirm_logout : Bool → Exec (Session K) (Unit {0})
  confirm_logout asked =
      if not asked then pure tt else do on_ssh (K.send (codes "y\n")); read_available; pure tt

  unfoldable pub log_out : Exec (Session K) (Unit {0})
  log_out = do
    on_ssh (K.send (codes "exit\n"))
    output ← read_available
    confirm_logout (search logout_confirm_prompt output)

  abbrev pub received : Bytes → Exec (Session K) Str
  received [] = raise (connection_error "SSH channel closed before CLI output became ready")
  received (b ∷ bytes) = pure (K.decode (b ∷ bytes))

  -- The beginning of a round: whether there is something to read, and whether the channel is closed.
  abbrev pub polled : Bool → Bool → Exec (Session K) Str
  polled true closed = do raw ← on_ssh K.recv; received raw
  polled false true = raise (connection_error "SSH channel closed before CLI output became ready")
  polled false false = pure []

  unfoldable pub poll : Exec (Session K) Str
  poll = do
    ready ← on_ssh K.recv_ready
    closed ← gets (λ (w : Session K). K.is_closed w.remote)
    polled ready closed

  -- `while handled_pagers < pager_count`, with the difference of the two.
  unfoldable pub continue_pagers : ℕ → ℕ → Exec (Session K) ℕ
  continue_pagers zero handled = pure handled
  continue_pagers (suc more) handled =
      if leb 5 handled
      then raise (runtime_error "CLI pager did not finish after sending continue")
      else do on_ssh (K.send (codes "c")); continue_pagers more (suc handled)

  abbrev pub end_round : Option Answer → Exec (Session K) Answer → Exec (Session K) Answer
  end_round none again = again
  end_round (some answer) again = pure answer

  unfoldable pub read_rounds : Option Str → Stops → ℕ → Str → ℕ → Exec (Session K) Answer
  read_rounds prompt stops zero chunks handled = raise (timeout_error "timed out waiting")
  read_rounds prompt stops (suc left) chunks handled = do
    text ← poll
    let output = normalize_stream_text (chunks ++ text)
    let more = count_matches pager_prompt 0 output - handled
    handled' ← continue_pagers more handled
    end_round (decide prompt stops output)
        (read_rounds prompt stops left (chunks ++ text ++ newlines more) handled')

  -- `_read_until_ready`
  unfoldable pub read_until_ready : Option Str → Stops → Exec (Session K) Answer
  read_until_ready prompt stops w = read_rounds prompt stops (K.rounds w.remote) [] 0 w

  -- `close`: the channel, and then the client.
  abbrev pub say_exit : Bool → Exec (Session K) (Unit {0})
  say_exit logout w = if logout && not (K.is_closed w.remote) then log_out w else (ok tt, w)

  unfoldable pub close_shell : Bool → Exec (Session K) (Unit {0})
  close_shell logout =
      try_finally (say_exit logout)
        (do on_ssh K.close_channel; modify (λ w. record w { channel = false }))

  abbrev pub close_transport : Exec (Session K) (Unit {0})
  close_transport w = if K.has_transport w.remote then on_ssh K.close_transport w else (ok tt, w)

  unfoldable pub close_client : Exec (Session K) (Unit {0})
  close_client = do
    close_transport
    on_ssh K.close_client
    modify (λ w. record w { client = false })

  abbrev pub when : Bool → Exec (Session K) (Unit {0}) → Exec (Session K) (Unit {0})
  when true action = action
  when false action = pure tt

  unfoldable pub close : Bool → Exec (Session K) (Unit {0})
  close logout = do
    has_channel ← gets (λ (w : Session K). w.channel)
    when has_channel (close_shell logout)
    has_client ← gets (λ (w : Session K). w.client)
    when has_client close_client

  unfoldable pub is_healthy : Session K → Bool
  is_healthy w =
      w.client
      && w.channel
      && not (K.is_closed w.remote)
      && K.has_transport w.remote
      && K.is_active w.remote

  -- One attempt of `connect`. A read without prompt and patterns ends at a prompt that it detected.
  abbrev pub established : Option Str → Exec (Session K) Str
  established none = raise (runtime_error "no prompt")
  established (some prompt) = pure prompt

  unfoldable pub open_shell : Exec (Session K) Str
  open_shell = do
    on_ssh K.connect_client
    on_ssh K.invoke_shell
    modify (λ w. record w { channel = true })
    on_ssh (K.send (codes "\n"))
    banner ← read_until_ready none []
    established banner.prompt

  -- After a failed attempt.
  abbrev pub forget : Error → Exec (Session K) (Unit {0})
  forget e = modify (λ w. record w { client = false; channel = false })

  abbrev pub server : Server
  server = record {
    State = Session K;
    configure = modify (λ w. record w { client = true }) >> on_ssh K.configure;
    open_shell = open_shell;
    close = try_except (close false) forget;
  }

  unfoldable pub connect_new : ℕ → Exec (Session K) (Unit {0})
  connect_new connect_attempts w =
      let (r, v) =
        attempts server connect_attempts
          (record { state = w; connect_attempts_used = 0; prompt = w.prompt }) in
      (r, record (v.state) { prompt = v.prompt; connect_attempts_used = v.connect_attempts_used })

  unfoldable pub connect : ℕ → Exec (Session K) (Unit {0})
  connect connect_attempts w = if is_healthy w then (ok tt, w) else connect_new connect_attempts w

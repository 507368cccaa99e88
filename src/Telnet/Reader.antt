-- ===== src/Telnet/Reader.antt =====
-- `TelnetCliSession._read_until_ready` of cli_tool/transport/telnet.py, and what it calls.
use device_cli_tool.Base.{
  ℕ, zero, suc, ◌-◌, Bool, true, false, Option, none, some, List, [], ◌∷◌, ◌++◌, leb, if◌then◌else◌,
  is_empty, err, runtime_error, connection_error, timeout_error,
}
use device_cli_tool.Base.Exec.{Exec, pure, raise, gets, ◌>>=◌, ◌>>◌}
use device_cli_tool.Text.{Str}
use device_cli_tool.Telnet.Protocol.{Bytes, consume_protocol}
use device_cli_tool.Telnet.Readiness.{normalize_stream_text, detect_prompt, ends_with_prompt}
use device_cli_tool.Telnet.Patterns.{Pattern, pager_prompt, search, count_matches}

-- A socket, the clock and the UTF-8 codec. `recv` gives none where it times out. `rounds` is the number
-- of rounds that a read begins before its deadline; a round takes at most as long as `recv`.
pub record Conn : Type 1 where
  pub State : Type 0
  pub create_connection : Exec State (Unit {0})
  pub recv : Exec State (Option Bytes)
  pub sendall : Bytes → Exec State (Unit {0})
  pub close : Exec State (Unit {0})
  pub rounds : State → ℕ
  pub decode : Bytes → Str
  pub encode : Str → Bytes

pub record World (C : Conn) : Type 0 where
  pub remote : C.State
  pub connected : Bool
  pub prompt : Option Str
  pub protocol_buffer : Bytes

-- What a read ended at.
pub data Ready : Type 0 where
  at_login at_password at_confirmation at_prompt : Ready

abbrev pub is_login : Ready → Bool
is_login at_login = true
is_login _ = false

abbrev pub is_password : Ready → Bool
is_password at_password = true
is_password _ = false

abbrev pub is_confirmation : Ready → Bool
is_confirmation at_confirmation = true
is_confirmation _ = false

abbrev pub is_prompt : Ready → Bool
is_prompt at_prompt = true
is_prompt _ = false

pub record Answer : Type 0 where
  pub output : Str
  pub ready : Ready
  pub prompt : Option Str

abbrev pub Stops : Type 0
Stops = List (Ready × Pattern)

-- The first pattern that is found.
abbrev pub stopped : Option Str → Stops → Str → Option Answer
stopped prompt [] output = none
stopped prompt ((name, pattern) ∷ stops) output =
    let rest = stopped prompt stops output in
    if search pattern output
    then some (record { output = output; ready = name; prompt = prompt })
    else rest

abbrev pub detected : Option Str → Str → Option Answer → Option Answer
detected none output otherwise = otherwise
detected (some p) output otherwise =
    some (record { output = output; ready = at_prompt; prompt = some p })

-- The tests at the end of a round.
unfoldable pub decide : Option Str → Stops → Str → Option Answer
decide none stops output = detected (detect_prompt output) output (stopped none stops output)
decide (some p) stops output =
    if ends_with_prompt output p
    then some (record { output = output; ready = at_prompt; prompt = some p })
    else stopped (some p) stops output

abbrev pub newlines : ℕ → Bytes
newlines zero = []
newlines (suc n) = 10 ∷ newlines n

module _ (C : Conn) where
  unfoldable pub on_conn : {A : Type 0} → Exec C.State A → Exec (World C) A
  on_conn action w = let (r, s) = action w.remote in (r, record w { remote = s })

  unfoldable pub write_raw : Bytes → Exec (World C) (Unit {0})
  write_raw value = do
    is_open ← gets (λ (w : World C). w.connected)
    if is_open
        then on_conn (C.sendall value)
        else raise (runtime_error "Telnet connection is not available")

  unfoldable pub write_line : Str → Exec (World C) (Unit {0})
  write_line value = write_raw (C.encode (value ++ (13 ∷ 10 ∷ [])))

  -- The bytes that became visible, and their place in the buffer.
  abbrev pub answer_protocol : Bytes → Bytes → Exec (World C) Bytes
  answer_protocol visible responses =
      if is_empty responses then pure visible else do on_conn (C.sendall responses); pure visible

  unfoldable pub consume : Bytes → Exec (World C) Bytes
  consume raw w =
      let ((visible, responses), remaining) = consume_protocol w.protocol_buffer raw in
      answer_protocol visible responses (record w { protocol_buffer = remaining })

  -- What `recv` returned.
  unfoldable pub received : Option Bytes → Exec (World C) Bytes
  received none = pure []
  received (some []) =
      raise (connection_error "Telnet connection closed before CLI output became ready")
  received (some (b ∷ bytes)) = consume (b ∷ bytes)

  -- `while handled_pagers < pager_count`, with the difference of the two.
  unfoldable pub continue_pagers : ℕ → ℕ → Exec (World C) ℕ
  continue_pagers zero handled = pure handled
  continue_pagers (suc more) handled =
      if leb 5 handled
      then raise (runtime_error "CLI pager did not finish after sending continue")
      else do write_raw (b'c' ∷ []); continue_pagers more (suc handled)

  abbrev pub end_round : Option Answer → Exec (World C) Answer → Exec (World C) Answer
  end_round none again = again
  end_round (some answer) again = pure answer

  unfoldable pub read_rounds : Option Str → Stops → ℕ → Bytes → ℕ → Exec (World C) Answer
  read_rounds prompt stops zero chunks handled = raise (timeout_error "timed out waiting")
  read_rounds prompt stops (suc left) chunks handled = do
    raw ← on_conn C.recv
    visible ← received raw
    let output = normalize_stream_text (C.decode (chunks ++ visible))
    let more = count_matches pager_prompt 0 output - handled
    handled' ← continue_pagers more handled
    end_round (decide prompt stops output)
        (read_rounds prompt stops left (chunks ++ visible ++ newlines more) handled')

  -- `_read_until_ready`
  unfoldable pub read_until_ready : Option Str → Stops → Exec (World C) Answer
  read_until_ready prompt stops w =
      if w.connected
      then read_rounds prompt stops (C.rounds w.remote) [] 0 w
      else (err (runtime_error "Telnet connection is not available"), w)

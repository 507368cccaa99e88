-- ===== src/Ssh/Connect.antt =====
-- `SshCliSession.connect` of cli_tool/transport/ssh.py, for a session that is not connected yet. The
-- error `authentication` stands for paramiko's AuthenticationException and its subclasses, and
-- `ssh_exception` for its other SSHExceptions. Pauses are left out.
pub mod Attempts
use device_cli_tool.Base.{
  ℕ, zero, suc, ◌+◌, Bool, true, false, not, ◌||◌, ◌==◌, Option, none, some, if◌then◌else◌, Error,
  Result, ok, err, is_os_error, authentication, ssh_exception, eof_error,
}
use device_cli_tool.Base.Exec.{Exec}
use device_cli_tool.Text.{Str}

-- `configure` makes the client and loads the known hosts; `open_shell` connects, opens the channel and
-- reads up to the prompt; `close` is `self.close(logout=False)`.
pub record Server : Type 1 where
  pub State : Type 0
  pub configure : Exec State (Unit {0})
  pub open_shell : Exec State Str
  pub close : Exec State (Unit {0})

pub record World (V : Server) : Type 0 where
  pub state : V.State
  pub connect_attempts_used : ℕ
  pub prompt : Option Str

-- `_is_retryable_connect_error`
abbrev pub is_retryable : Error → Bool
is_retryable (authentication m) = false
is_retryable (ssh_exception m) = true
is_retryable (eof_error m) = true
is_retryable e = is_os_error e

abbrev pub is_none_left : ℕ → Bool
is_none_left zero = true
is_none_left (suc left) = false

module _ (V : Server) where
  -- Behind `open_shell`, in the world `w`. Whatever `close` raises is caught.
  abbrev pub after_open :
      Exec (World V) (Unit {0})
      → Bool
      → World V
      → Result Str × V.State
      → Result (Unit {0}) × World V
  after_open again is_last w (ok prompt, s) = (ok tt, record w { state = s; prompt = some prompt })
  after_open again is_last w (err e, s) =
      let closed : World V = record w { state = (V.close s).1 } in
      let retried = again closed in
      if is_last || not (is_retryable e) then (err e, closed) else retried

  abbrev pub after_configure :
      Exec (World V) (Unit {0})
      → Bool
      → World V
      → Result (Unit {0}) × V.State
      → Result (Unit {0}) × World V
  after_configure again is_last w (err e, s) = (err e, record w { state = s })
  after_configure again is_last w (ok u, s) = after_open again is_last w (V.open_shell s)

  -- `for attempt in range(...)`, with `left` attempts to come: the last one has none behind it.
  unfoldable pub attempts : ℕ → Exec (World V) (Unit {0})
  attempts zero w = (ok tt, w)
  attempts (suc left) w =
      after_configure (attempts left) (is_none_left left)
        (record w { connect_attempts_used = suc w.connect_attempts_used }) (V.configure w.state)

-- ===== src/Ssh/Pool.antt =====
-- `SshSessionPool` and `PooledSshSession` of cli_tool/transport/ssh.py, in one thread. Timings are left
-- out; a session is a number, and what it does is a parameter.
pub mod Books
pub mod Balance
pub mod CloseAll
use device_cli_tool.Base.{
  ℕ, suc, ◌+◌, ◌-◌, Bool, true, false, ◌&&◌, Option, none, some, List, [], ◌∷◌, ◌==◌, if◌then◌else◌,
  Result,
}
use device_cli_tool.Base.Exec.{Exec, pure, gets, modify, ◌>>=◌, ◌>>◌, try_reraise}
use device_cli_tool.Text.{Str}

-- `SshCliSession`, and `FileTokenSemaphore.acquire`. Asking whether a session is healthy reads fields and
-- does not raise.
pub record Shell : Type 1 where
  pub State : Type 0
  pub is_healthy : ℕ → State → Bool
  pub connect : ℕ → Exec State (Unit {0})
  pub close : Bool → ℕ → Exec State (Unit {0})
  pub run_command : ℕ → Str → Exec State Str
  pub take_token : Exec State ℕ

-- `PooledSshSession`: the session and its token.
pub record Pooled : Type 0 where
  pub session : ℕ
  pub token : ℕ

-- `idle` has what was appended last in front. `held` counts how often each token has been taken and not
-- been given back.
pub record World (S : Shell) : Type 0 where
  pub state : S.State
  pub idle : List Pooled
  pub held : ℕ → ℕ
  pub next_session : ℕ

pub record CliCommandResult : Type 0 where
  pub command : Str
  pub output : Str

module _ (S : Shell) where
  unfoldable pub on_shell : {A : Type 0} → Exec S.State A → Exec (World S) A
  on_shell action w = let (r, s) = action w.state in (r, record w { state = s })

  -- `self.semaphore.release(token)`
  unfoldable pub release_token : ℕ → Exec (World S) (Unit {0})
  release_token token =
      modify (λ w. record w { held = λ k. if token == k then w.held k - 1 else w.held k })

  unfoldable pub note_taken : ℕ → Exec (World S) (Unit {0})
  note_taken token =
      modify (λ w. record w { held = λ k. if token == k then w.held k + 1 else w.held k })

  unfoldable pub set_idle : List Pooled → Exec (World S) (Unit {0})
  set_idle pooled = modify (λ w. record w { idle = pooled })

  -- `while self._idle`
  unfoldable pub pop_healthy : List Pooled → Exec (World S) (Option Pooled)
  pop_healthy [] = pure none
  pop_healthy (pooled ∷ rest) =
      let later = pop_healthy rest in
      do
        set_idle rest
        healthy ← gets (λ (w : World S). S.is_healthy pooled.session w.state)
        (if healthy
            then pure (some pooled)
            else do on_shell (S.close false pooled.session); release_token pooled.token; later)

  unfoldable pub new_session : Exec (World S) ℕ
  new_session = do
    session ← gets (λ (w : World S). w.next_session)
    modify (λ (w : World S). record w { next_session = suc w.next_session })
    pure session

  unfoldable pub open_session : Exec (World S) Pooled
  open_session = do
    token ← on_shell S.take_token
    note_taken token
    session ← new_session
    try_reraise (on_shell (S.connect session))
        (do release_token token; on_shell (S.close false session))
    pure (record { session = session; token = token })

  pub or_open : Option Pooled → Exec (World S) Pooled
  or_open none = open_session
  or_open (some pooled) = pure pooled

  unfoldable pub acquire : Exec (World S) Pooled
  unfolding or_open
  acquire = do idle ← gets (λ (w : World S). w.idle); found ← pop_healthy idle; or_open found

  unfoldable pub discard : Bool → Pooled → Exec (World S) (Unit {0})
  discard logout pooled = do on_shell (S.close logout pooled.session); release_token pooled.token

  -- `self.reuse_sessions and pooled.session.is_healthy()`
  pub can_reuse : Bool → Pooled → Exec (World S) Bool
  can_reuse false pooled = pure false
  can_reuse true pooled = gets (λ (w : World S). S.is_healthy pooled.session w.state)

  pub append_idle : Pooled → Exec (World S) (Unit {0})
  append_idle pooled = modify (λ (w : World S). record w { idle = pooled ∷ w.idle })

  unfoldable pub release : Bool → Pooled → Exec (World S) (Unit {0})
  unfolding can_reuse append_idle
  release reuse_sessions pooled = do
    reused ← can_reuse reuse_sessions pooled
    if reused then append_idle pooled else discard true pooled

  -- The loop of `PooledSshSession.run_commands`.
  unfoldable pub command_loop : Pooled → List Str → Exec (World S) (List CliCommandResult)
  command_loop pooled [] = pure []
  command_loop pooled (command ∷ commands) = do
    output ← on_shell (S.run_command pooled.session command)
    results ← command_loop pooled commands
    pure (record { command = command; output = output } ∷ results)

  unfoldable pub pooled_run_commands : Pooled → List Str → Exec (World S) (List CliCommandResult)
  pooled_run_commands pooled commands =
      try_reraise (command_loop pooled commands) (discard false pooled)

  -- `with self.acquire(owner) as pooled`: a session whose commands raised has been discarded, and its
  -- `timing.error` keeps it from being released.
  unfoldable pub run_commands : Bool → List Str → Exec (World S) (List CliCommandResult)
  run_commands reuse_sessions commands = do
    pooled ← acquire
    results ← pooled_run_commands pooled commands
    release reuse_sessions pooled
    pure results

  -- The sessions that were idle, the oldest first.
  unfoldable pub close_each : List Pooled → Exec (World S) (Unit {0})
  close_each [] = pure tt
  close_each (pooled ∷ older) = do
    close_each older
    on_shell (S.close true pooled.session)
    release_token pooled.token

  unfoldable pub close_all : Exec (World S) (Unit {0})
  close_all = do sessions ← gets (λ (w : World S). w.idle); set_idle []; close_each sessions

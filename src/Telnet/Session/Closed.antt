-- ===== src/Telnet/Session/Closed.antt =====
-- A run of the Telnet transport ends with its session closed.
use device_cli_tool.Base.{
  Bool, true, false, ◌≡◌, refl, if◌then◌else◌, List, Result, ok, err, permission_error, Bool-cases,
  inl, inr,
}
use device_cli_tool.Base.Exec.{continue, modify, ◌>>=◌}
use device_cli_tool.Base.Exec.Keeps.{finally_leaves}
use device_cli_tool.Text.{Str}
use device_cli_tool.Telnet.Options.{TelnetCliTransport, check_session}
use device_cli_tool.Telnet.Reader.{Conn, World, on_conn}
use device_cli_tool.Telnet.Session.{
  reset, say_exit, close_open, close, connect, run_commands, session_body, transport_run,
}

module _ (C : Conn) (closes : (s : C.State) → (C.close s).0 ≡ ok tt) where
  abbrev IsClosed : World C → Type 0
  IsClosed w = w.connected ≡ false

  reset_lem :
      (r : Result (Unit {0})) (w : World C)
      → r ≡ ok tt
      → IsClosed (continue r (λ _. modify (reset C)) w).1
  unfolding ◌>>=◌
  reset_lem (ok u) w h = refl
  reset_lem (err e) w h = absurd cc

  last_lem : (w : World C) → IsClosed ((on_conn C C.close >>= λ _. modify (reset C)) w).1
  unfolding on_conn ◌>>=◌
  last_lem w =
      let (q, s) = C.close w.remote in reset_lem q (record w { remote = s }) (closes w.remote)

  close_open-IsClosed : (logout : Bool) (w : World C) → IsClosed (close_open C logout w).1
  unfolding close_open
  close_open-IsClosed logout w =
      finally_leaves IsClosed (say_exit C logout) (on_conn C C.close >>= λ _. modify (reset C))
        last_lem w

  close_at :
      (logout b : Bool) (w : World C)
      → w.connected ≡ b
      → IsClosed (if b then close_open C logout w else (ok tt, w)).1
  close_at logout true w h = close_open-IsClosed logout w
  close_at logout false w h = h

  close-IsClosed : (logout : Bool) (w : World C) → IsClosed (close C logout w).1
  unfolding close
  close-IsClosed logout w = close_at logout w.connected w refl

  checked_at :
      (t : TelnetCliTransport) (commands : List Str) (r : Result (Unit {0})) (w : World C)
      → IsClosed w
      → IsClosed (continue r (λ _. session_body C t commands) w).1
  unfolding ◌>>=◌
  checked_at t commands (ok u) w h =
      finally_leaves IsClosed
        (connect C t.username t.password >>= λ _. run_commands C t.username t.password commands)
        (close C true) (close-IsClosed true) w
  checked_at t commands (err e) w h = h

  transport_at :
      (t : TelnetCliTransport) (commands : List Str) (w : World C)
      → IsClosed w
      → IsClosed (transport_run C t commands w).1
  unfolding transport_run ◌>>=◌ check_session
  transport_at t commands w h = elim (Bool-cases t.allow_insecure_telnet) [
    | inl e ↦ rw e (checked_at t commands (check_session t) w h)
    | inr e ↦ rw e h
  ]

-- A run of the Telnet transport on a session that is not connected leaves it not connected, whatever
-- the device does and whether the run returns or raises, provided that closing the socket does not raise.
-- Without `allow_insecure_telnet` it raises PermissionError and changes nothing.
pub transport_run-IsClosed :
    (C : Conn) (t : TelnetCliTransport) (commands : List Str) (w : World C)
    → ((s : C.State) → (C.close s).0 ≡ ok tt)
    → w.connected ≡ false
    → ((transport_run C t commands w).1.connected ≡ false)
      × (t.allow_insecure_telnet ≡ false
          → transport_run C t commands w ≡ (
            err (
                permission_error
                  "Telnet is plaintext; set allow_insecure_telnet=True only for an isolated lab"),
            w,
          ))
unfolding transport_run ◌>>=◌ check_session
transport_run-IsClosed C t commands w closes closed =
    (transport_at C closes t commands w closed, λ e. rw e refl)

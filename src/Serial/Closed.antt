-- ===== src/Serial/Closed.antt =====
-- A run of the serial transport ends with its port closed.
use device_cli_tool.Base.{Bool, true, false, ◌≡◌, refl, if◌then◌else◌, List, Result, ok, err}
use device_cli_tool.Base.Exec.{continue, modify, ◌>>=◌}
use device_cli_tool.Base.Exec.Keeps.{finally_leaves}
use device_cli_tool.Text.{Str}
use device_cli_tool.Serial.{SerialCliTransport, Port, World}
use device_cli_tool.Serial.Session.{
  on_port, say_exit, close_open, close, connect, run_commands, transport_run,
}

module _ (P : Port) (closes : (s : P.State) → (P.close_port s).0 ≡ ok tt) where
  abbrev IsClosed : World P → Type 0
  IsClosed w = w.connected ≡ false

  dropped_lem :
      (q : Result (Unit {0})) (w : World P)
      → q ≡ ok tt
      → IsClosed (continue q (λ _. modify (λ (v : World P). record v { connected = false })) w).1
  unfolding ◌>>=◌
  dropped_lem (ok u) w h = refl
  dropped_lem (err e) w h = absurd cc

  drop_lem :
      (w : World P)
      → IsClosed
          ((on_port P P.close_port >>= λ _.
              modify (λ (v : World P). record v { connected = false }))
            w).1
  unfolding on_port ◌>>=◌
  drop_lem w =
      let (q, s) = P.close_port w.remote in
      dropped_lem q (record w { remote = s }) (closes w.remote)

  close_at :
      (logout b : Bool) (w : World P)
      → w.connected ≡ b
      → IsClosed (if b then close_open P logout w else (ok tt, w)).1
  unfolding close_open
  close_at logout true w h =
      finally_leaves IsClosed (say_exit P logout)
        (on_port P P.close_port >>= λ _. modify (λ (v : World P). record v { connected = false }))
        drop_lem w
  close_at logout false w h = h

  close-IsClosed : (logout : Bool) (w : World P) → IsClosed (close P logout w).1
  unfolding close
  close-IsClosed logout w = close_at logout w.connected w refl

-- A run of the serial transport ends with no connection, whatever the device does, whether the port could be
-- opened, and whether the run returns or raises, provided that closing the port does not raise.
pub run-IsClosed :
    (P : Port) (t : SerialCliTransport) (commands : List Str) (w : World P)
    → ((s : P.State) → (P.close_port s).0 ≡ ok tt)
    → (transport_run P t commands w).1.connected ≡ false
unfolding transport_run
run-IsClosed P t commands w closes =
    finally_leaves (λ (v : World P). v.connected ≡ false)
      (connect P t.username t.password >>= λ _. run_commands P t.username t.password commands)
      (close P true) (close-IsClosed P closes true) w

-- ===== src/Ssh/Tests.antt =====
-- Runs of the semaphore, and the theorems at concrete inputs.
use device_cli_tool.Base.{
  ℕ, Bool, true, false, none, some, [], ◌∷◌, ◌==◌, if◌then◌else◌, is_ok, not, suc, ok, err,
  os_error, ssh_exception, ◌≡◌, refl, arith,
}
use device_cli_tool.Ssh.Tokens.{
  unreadable, owned_by, Directory, put, acquire, attempt, first_free, remove_stale,
}
use device_cli_tool.Text.{codes}
use device_cli_tool.Ssh.Connect
use device_cli_tool.Ssh.Connect.{Server, attempts}
use device_cli_tool.Ssh.Pool.{Shell, World, run_commands}
use device_cli_tool.Ssh.Pool.Books.{Balanced}
use device_cli_tool.Ssh.Pool.Balance.{run_commands-Balanced}
use device_cli_tool.Ssh.Tokens.Acquired.{Acquires, acquire-Acquires}
use device_cli_tool.Ssh.Tokens.System.{System, waiting, created, holding, Reachable}
use device_cli_tool.Ssh.Tokens.System.Race.{both-holding}

-- The token 0 belongs to the process 3, which lives, and the token 1 to the process 4, which does not.
abbrev one_stale : Directory
one_stale i =
    if i == 0
    then some (record { creator = 0; content = owned_by 3 })
    else if i == 1
    then some (record { creator = 1; content = owned_by 4 })
    else none

abbrev only_3 : ℕ → Bool
only_3 pid = pid == 3

acquire-is_ok : is_ok (acquire only_3 7 2 2 one_stale []) ≡ true
unfolding acquire attempt first_free remove_stale
acquire-is_ok = refl

acquire-not_ok : is_ok (acquire only_3 7 2 1 one_stale []) ≡ false
unfolding acquire attempt first_free remove_stale
acquire-not_ok = refl

acquire-Acquires_example :
    Acquires only_3 7 2 2
      (one_stale ∷ one_stale ∷ [])
      (acquire only_3 7 2 2 one_stale (one_stale ∷ []))
acquire-Acquires_example = acquire-Acquires only_3 7 2 2 one_stale (one_stale ∷ [])

abbrev nobody : System
nobody = record { directory = λ i. none; status = λ a. waiting }

abbrev one_created : System
one_created = record {
  directory = put nobody.directory 0 (some (record { creator = 5; content = unreadable }));
  status = put nobody.status 5 (created 0);
}

abbrev one_holding : System
one_holding = record {
  directory = put one_created.directory 0 (some (record { creator = 5; content = owned_by 5 }));
  status = put one_created.status 5 (holding 0);
}

both-holding_example :
    (s : System) × Reachable (λ p. true) (λ a. 9) 1 false s
    × (s.status 1 ≡ holding 0)
    × (s.status 2 ≡ holding 0)
both-holding_example = both-holding (λ p. true) (λ a. 9) 1 1 2 0 (omega arith) refl

-- The session 0 cannot be reached any more; a command fails on the session 2; the next token is 1.
abbrev shell : Shell
shell = record {
  State = ℕ;
  is_healthy = λ session n. not (session == 0);
  connect = λ session n. (ok tt, suc n);
  close = λ logout session n. (ok tt, suc n);
  run_command =
      λ session command n. (if session == 2 then err (os_error "closed") else ok command, suc n);
  take_token = λ n. (ok 1, suc n);
}

abbrev two_idle : World shell
two_idle = record {
  state = 0;
  idle = record { session = 0; token = 1 } ∷ record { session = 1; token = 0 } ∷ [];
  held = λ k. if k == 0 then 1 else if k == 1 then 1 else 0;
  next_session = 2;
}

two_idle-Balanced : Balanced shell two_idle
two_idle-Balanced k = ground arith

run_commands-Balanced_example :
    Balanced shell (run_commands shell true (codes "show version" ∷ []) two_idle).1
run_commands-Balanced_example =
    run_commands-Balanced shell (λ logout session s. refl) true (codes "show version" ∷ []) two_idle
      two_idle-Balanced

-- It fails twice, and then shows a prompt.
abbrev third_time : Server
third_time = record {
  State = ℕ;
  configure = λ n. (ok tt, n);
  open_shell = λ n. (if n == 2 then ok (codes "olt#") else err (ssh_exception "banner"), suc n);
  close = λ n. (err (os_error "closed"), n);
}

abbrev unconnected : Connect.World third_time
unconnected = record { state = 0; connect_attempts_used = 0; prompt = none }

third_time-is_ok : is_ok (attempts third_time 3 unconnected).0 ≡ true
unfolding attempts
third_time-is_ok = refl

third_time-not_ok : is_ok (attempts third_time 2 unconnected).0 ≡ false
unfolding attempts
third_time-not_ok = refl

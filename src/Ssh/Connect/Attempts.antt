-- ===== src/Ssh/Connect/Attempts.antt =====
-- How often `connect` tries, and what it leaves.
use device_cli_tool.Base.{ℕ, suc, ◌+◌, ◌≤◌, Bool, false, ◌≡◌, is_none, Result, ok, err}
use device_cli_tool.Base.Exec.{Exec}
use device_cli_tool.Ssh.Connect.{Server, World}

module _ (V : Server) where
  -- The outcome of one to `left` attempts that began in the world `w`.
  abbrev pub Outcome : ℕ → World V → Result (Unit {0}) × World V → Type 0
  Outcome left w (ok u, w') =
      (is_none w'.prompt ≡ false)
      × (suc w.connect_attempts_used ≤ w'.connect_attempts_used)
      × (w'.connect_attempts_used ≤ w.connect_attempts_used + left)
  Outcome left w (err e, w') =
      (w'.prompt ≡ w.prompt)
      × (suc w.connect_attempts_used ≤ w'.connect_attempts_used)
      × (w'.connect_attempts_used ≤ w.connect_attempts_used + left)

  -- `w` with one more attempt counted.
  abbrev counted : World V → V.State → World V
  counted w s = record w { state = s; connect_attempts_used = suc w.connect_attempts_used }

  abbrev Goes : ℕ → Bool → World V → Exec (World V) (Unit {0}) → Type 0
  Goes left is_last w again =
      is_last ≡ false → (s : V.State) → Outcome left (counted w s) (again (counted w s))

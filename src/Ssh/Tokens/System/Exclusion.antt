-- ===== src/Ssh/Tokens/System/Exclusion.antt =====
-- Tokens exclude each other as long as no sweep meets a file that is created but not written.
use device_cli_tool.Base.{ℕ, false, Option, some, ◌==◌, ◌≡◌, ◌≢◌, ◌⊎◌}
use device_cli_tool.Ssh.Tokens.{unreadable, owned_by, Token, Directory, put}
use device_cli_tool.Ssh.Tokens.System.{Status, waiting, created, holding, released, System}

-- The file that a call in this state has in the directory.
abbrev Backed : ℕ → ℕ → Status → Directory → Type 0
Backed a process waiting d = Unit
Backed a process released d = Unit
Backed a process (created i) d = d i ≡ some (record { creator = a; content = unreadable })
Backed a process (holding i) d = d i ≡ some (record { creator = a; content = owned_by process })

-- The call that has this file in the directory.
abbrev Owned : ℕ → Token → ℕ → Status → Type 0
Owned process t i st =
    ((st ≡ created i) × (t.content ≡ unreadable))
    ⊎ ((st ≡ holding i) × (t.content ≡ owned_by process))

-- `st` has no file but one at `i`.
abbrev OnlyAt : ℕ → Status → Type 0
OnlyAt i st = (j : ℕ) → (i == j) ≡ false → (st ≢ created j) × (st ≢ holding j)

module _ (pid : ℕ → ℕ) where
  abbrev pub IsBacked : System → Type 0
  IsBacked s = (a : ℕ) → Backed a (pid a) (s.status a) s.directory

  abbrev pub IsOwned : System → Type 0
  IsOwned s =
      (i : ℕ) (t : Token) → s.directory i ≡ some t → Owned (pid t.creator) t i (s.status t.creator)

  -- The call `a` goes on to `st`, and the file at `i` becomes `file`; there was none, or one of `a`.
  module _ (s : System) (a i : ℕ) (st : Status) (file : Option Token) where
    moved : System
    moved = record { directory = put s.directory i file; status = put s.status a st }

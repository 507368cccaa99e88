-- ===== src/Ssh/Tokens/System.antt =====
-- Calls of `FileTokenSemaphore` by any number of threads and processes on one directory, one system
-- call after the other, in any order. `pid a` is the process of the call `a` of `acquire`.
pub mod Exclusion
pub mod Race
use device_cli_tool.Base.{
  ℕ, ◌<◌, Bool, true, false, Option, none, some, ◌==◌, if◌then◌else◌, is_none, ◌≡◌,
}
use device_cli_tool.Ssh.Tokens.{
  unreadable, owned_by, is_unreadable, Token, Directory, put, is_stale,
}

-- How far a call of `acquire` is: it has created the file of the index, but not written it; or it has
-- returned the index.
pub data Status : Type 0 where
  waiting : Status
  created holding : ℕ → Status
  released : Status

pub record System : Type 0 where
  pub directory : Directory
  pub status : ℕ → Status

-- `json.dump` to the descriptor: it reaches the directory if the name still means the file that this
-- call created.
abbrev pub written : ℕ → ℕ → Option Token → Option Token
written a process none = none
written a process (some t) =
    if t.creator == a then some (record t { content = owned_by process }) else some t

module _ (alive : ℕ → Bool) (pid : ℕ → ℕ) (max_tokens : ℕ) where
  -- With `careful` no sweep meets a file between its creation and its writing; the code does not see to
  -- that.
  pub data Step (careful : Bool) : System → System → Type 0 where
    sweep :
        (a i : ℕ) (t : Token) (s : System)
        → s.directory i ≡ some t
        → is_stale alive (pid a) t.content ≡ true
        → (careful ≡ true → is_unreadable t.content ≡ false)
        → Step careful s (record s { directory = put s.directory i none })
    create :
        (a i : ℕ) (s : System)
        → s.status a ≡ waiting
        → i < max_tokens
        → s.directory i ≡ none
        → Step careful s (record {
          directory = put s.directory i (some (record { creator = a; content = unreadable }));
          status = put s.status a (created i);
        })
    write :
        (a i : ℕ) (s : System)
        → s.status a ≡ created i
        → Step careful s (record {
          directory = put s.directory i (written a (pid a) (s.directory i));
          status = put s.status a (holding i);
        })
    release :
        (a i : ℕ) (s : System)
        → s.status a ≡ holding i
        → Step careful s
            (record { directory = put s.directory i none; status = put s.status a released })

  -- Any number of steps from an empty directory.
  pub data Reachable (careful : Bool) : System → Type 0 where
    start : Reachable careful (record { directory = λ i. none; status = λ a. waiting })
    after : (s s' : System) → Reachable careful s → Step careful s s' → Reachable careful s'

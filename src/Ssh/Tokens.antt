-- ===== src/Ssh/Tokens.antt =====
-- `FileTokenSemaphore` of cli_tool/transport/ssh.py. A token is a file of the directory; its index is
-- the number in its name. `alive` stands for `os.kill(pid, 0)`.
pub mod Acquired
pub mod System
use device_cli_tool.Base.{
  ℕ, zero, suc, Bool, true, false, not, Option, none, some, List, [], ◌∷◌, ◌==◌, if◌then◌else◌,
  is_none, Result, ok, err, timeout_error,
}

-- What a file says: it cannot be read or is no JSON, it is an object without an integer `pid`, or it has
-- one. A JSON text that is no object, on which `get` raises, is left out.
pub data Content : Type 0 where
  unreadable no_pid : Content
  owned_by : ℕ → Content

abbrev pub is_unreadable : Content → Bool
is_unreadable unreadable = true
is_unreadable _ = false

-- `creator` tells apart the calls of `acquire` that created files of the same name. A file is unreadable
-- until it is written.
pub record Token : Type 0 where
  pub creator : ℕ
  pub content : Content

abbrev pub Directory : Type 0
Directory = ℕ → Option Token

abbrev pub put {ℓ} : {A : Type ℓ} → (ℕ → A) → ℕ → A → ℕ → A
put f i value j = if i == j then value else f j

-- `release`. A missing file is no error.
unfoldable pub release : Option ℕ → Directory → Directory
release none d = d
release (some i) d = put d i none

module _ (alive : ℕ → Bool) (self : ℕ) where
  -- `_is_stale`, run by the process `self`.
  abbrev pub is_stale : Content → Bool
  is_stale unreadable = true
  is_stale no_pid = false
  is_stale (owned_by pid) = if pid == self then false else not (alive pid)

  abbrev pub unless_stale : Option Token → Option Token
  unless_stale none = none
  unless_stale (some t) = if is_stale t.content then none else some t

  -- `_remove_stale_tokens`
  unfoldable pub remove_stale : Directory → Directory
  remove_stale d i = unless_stale (d i)

  -- `for index in range(self.max_tokens)`, from `index` on: the first name that `O_EXCL` can create.
  unfoldable pub first_free : ℕ → ℕ → Directory → Option ℕ
  first_free zero index d = none
  first_free (suc count) index d =
      let later = first_free count (suc index) d in if is_none (d index) then some index else later

  module _ (creator : ℕ) (max_tokens : ℕ) where
    abbrev pub created : Option ℕ → Directory → Option (ℕ × Directory)
    created none d = none
    created (some i) d =
        some (i, put d i (some (record { creator = creator; content = owned_by self })))

    -- One pass of `while True`, if nothing comes between its calls.
    unfoldable pub attempt : Directory → Option (ℕ × Directory)
    attempt d = created (first_free max_tokens 0 (remove_stale d)) (remove_stale d)

    abbrev pub or_later : Option (ℕ × Directory) → Result (ℕ × Directory) → Result (ℕ × Directory)
    or_later none later = later
    or_later (some taken) later = ok taken

    -- The passes until the deadline, with the directories that they find; there is at least one.
    unfoldable pub acquire : Directory → List Directory → Result (ℕ × Directory)
    acquire d [] = or_later (attempt d) (err (timeout_error "waiting for SSH token timed out"))
    acquire d (next ∷ passes) = or_later (attempt d) (acquire next passes)

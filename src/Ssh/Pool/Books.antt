-- ===== src/Ssh/Pool/Books.antt =====
-- The tokens that a pool holds, and those of its idle sessions.
use device_cli_tool.Base.{
  ℕ, ◌+◌, Bool, true, false, ◌≡◌, refl, ap, ◌∙◌, arith, Option, none, some, List, [], ◌∷◌, ◌==◌,
  if◌then◌else◌,
}
use device_cli_tool.Base.Exec.{Exec, gets, ◌>>=◌}
use device_cli_tool.Base.Exec.Keeps.{Keeps, Keeps-bind, Keeps-of, Keeps-pure}
use device_cli_tool.Base.Exec.Triples.{Triple}
use device_cli_tool.Text.{Str}
use device_cli_tool.Ssh.Pool.{
  Shell, Pooled, World, on_shell, release_token, note_taken, set_idle, can_reuse, command_loop,
}

abbrev pub one : ℕ → ℕ → ℕ
one token k = if token == k then 1 else 0

abbrev pub count_token : ℕ → List Pooled → ℕ
count_token k [] = 0
count_token k (pooled ∷ idle) = one pooled.token k + count_token k idle

module _ (S : Shell) where
  -- The tokens that are held are those of the idle sessions, and `extra` more.
  abbrev pub Books : (ℕ → ℕ) → World S → Type 0
  Books extra w = (k : ℕ) → w.held k ≡ extra k + count_token k w.idle

  -- The tokens that are held are those of the idle sessions.
  abbrev pub Balanced : World S → Type 0
  Balanced w = (k : ℕ) → w.held k ≡ count_token k w.idle

  -- What a session does leaves the books alone.
  abbrev pub OfBooks : (List Pooled → (ℕ → ℕ) → Type 0) → World S → Type 0
  OfBooks F w = F w.idle w.held

  pub Keeps-on_shell :
      {A : Type 0} (F : List Pooled → (ℕ → ℕ) → Type 0) (action : Exec S.State A)
      → Keeps (OfBooks F) (on_shell S action)
  unfolding on_shell
  Keeps-on_shell F action = Keeps-of _ (λ w h. h)

  -- Nothing is held but for idle sessions, which are these.
  abbrev pub AreBalanced : List Pooled → (ℕ → ℕ) → Type 0
  AreBalanced idle held = (k : ℕ) → held k ≡ count_token k idle

  abbrev pub AreHeld : ℕ → List Pooled → (ℕ → ℕ) → Type 0
  AreHeld token idle held = (k : ℕ) → held k ≡ one token k + count_token k idle

  abbrev pub IdleIs : List Pooled → List Pooled → (ℕ → ℕ) → Type 0
  IdleIs pooled idle held = ((k : ℕ) → held k ≡ count_token k idle) × (idle ≡ pooled)

  -- What the search for an idle session found.
  abbrev pub Found : Option Pooled → World S → Type 0
  Found none w = Balanced w
  Found (some pooled) w = Books (one pooled.token) w

  -- The session is taken out, and the others are still there.
  abbrev pub TakenFrom : Pooled → List Pooled → List Pooled → (ℕ → ℕ) → Type 0
  TakenFrom pooled rest idle held =
      ((k : ℕ) → held k ≡ one pooled.token k + count_token k idle) × (idle ≡ rest)

  pub set_idle_lem :
      (pooled : Pooled) (rest : List Pooled)
      → Triple
          (OfBooks (IdleIs (pooled ∷ rest)))
          (set_idle S rest)
          (λ _. OfBooks (TakenFrom pooled rest))
          Balanced
  unfolding set_idle ◌>>=◌
  set_idle_lem pooled rest = record {
    at = λ w (h, e). ((λ k. h k ∙ ap (λ l. count_token k l) e), refl);
  }

  pub release_token_lem :
      {E : World S → Type 0} (extra : ℕ → ℕ) (token : ℕ)
      → Triple (Books (λ k. one token k + extra k)) (release_token S token) (λ _. Books extra) E
  unfolding release_token ◌>>=◌
  release_token_lem extra token = record { at = λ w h k. ground (arith, h k) }

  pub note_taken_lem :
      (token : ℕ) → Triple Balanced (note_taken S token) (λ _. Books (one token)) Balanced
  unfolding note_taken ◌>>=◌
  note_taken_lem token = record { at = λ w h k. ground (arith, h k) }

  pub read_idle_lem :
      Triple Balanced (gets (λ (w : World S). w.idle)) (λ idle. OfBooks (IdleIs idle)) Balanced
  unfolding ◌>>=◌
  read_idle_lem = record { at = λ w h. (h, refl) }

  pub last_token_lem :
      (token : ℕ) → Triple (Books (one token)) (release_token S token) (λ _. Balanced) Balanced
  unfolding release_token ◌>>=◌
  last_token_lem token = record { at = λ w h k. ground (arith, h k) }

  pub can_reuse_lem :
      (reuse_sessions : Bool) (pooled : Pooled)
      → Triple
          (Books (one pooled.token))
          (can_reuse S reuse_sessions pooled)
          (λ _. Books (one pooled.token))
          Balanced
  unfolding can_reuse ◌>>=◌
  can_reuse_lem true pooled = record { at = λ w h. h }
  can_reuse_lem false pooled = record { at = λ w h. h }

  pub command_loop-Keeps :
      (F : List Pooled → (ℕ → ℕ) → Type 0) (pooled : Pooled) (commands : List Str)
      → Keeps (OfBooks F) (command_loop S pooled commands)
  unfolding command_loop
  command_loop-Keeps F pooled [] = Keeps-pure _
  command_loop-Keeps F pooled (command ∷ commands) =
      Keeps-bind _ _ (Keeps-on_shell F _)
        λ output. Keeps-bind _ _ (command_loop-Keeps F pooled commands) λ results. Keeps-pure _

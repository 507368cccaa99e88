-- ===== src/Ssh/Pool/Balance.antt =====
-- A pool holds each token as often as its sessions have it.
use device_cli_tool.Base.{
  ℕ, Bool, true, false, ◌≡◌, arith, Option, none, some, List, [], ◌∷◌, Result, ok, err, is_ok,
  if◌then◌else◌,
}
use device_cli_tool.Base.Exec.{Exec, pure, ◌>>=◌, ◌>>◌}
use device_cli_tool.Base.Exec.Keeps.{both-Ends, Triple-Keeps}
use device_cli_tool.Base.Exec.Triples.{
  Ends, Triple, Triple-bind, Triple-gets, Triple-pure, Triple-try_reraise,
}
use device_cli_tool.Text.{Str}
use device_cli_tool.Ssh.Pool.{
  Shell, Pooled, World, on_shell, release_token, pop_healthy, new_session, open_session, or_open,
  acquire, discard, append_idle, release, pooled_run_commands, run_commands,
}
use device_cli_tool.Ssh.Pool.Books.{
  one, Books, Balanced, OfBooks, Keeps-on_shell, AreBalanced, AreHeld, IdleIs, Found, TakenFrom,
  set_idle_lem, note_taken_lem, read_idle_lem, last_token_lem, can_reuse_lem, command_loop-Keeps,
}

module _ (S : Shell)
    (closes : (logout : Bool) (session : ℕ) (s : S.State)
      → is_ok (S.close logout session s).0 ≡ true) where
  ok-Ends :
      (P E : World S → Type 0) (r : Result (Unit {0})) (w : World S)
      → is_ok r ≡ true
      → P w
      → Ends (λ _. P) E (r, w)
  ok-Ends P E (ok u) w e h = h
  ok-Ends P E (err x) w e h = cc

  pub close_lem :
      {E : World S → Type 0} (F : List Pooled → (ℕ → ℕ) → Type 0) (logout : Bool) (session : ℕ)
      → Triple (OfBooks S F) (on_shell S (S.close logout session)) (λ _. OfBooks S F) E
  unfolding on_shell
  close_lem {E = E} F logout session = record {
    at = λ w h.
        let (r, s) = S.close logout session w.state in
        ok-Ends (OfBooks S F) E r (record w { state = s }) (closes logout session w.state) h;
  }

  give_back_lem :
      (pooled : Pooled) (rest : List Pooled)
      → Triple
          (OfBooks S (TakenFrom S pooled rest))
          (release_token S pooled.token)
          (λ _. OfBooks S (IdleIs S rest))
          (Balanced S)
  unfolding release_token ◌>>=◌
  give_back_lem pooled rest = record { at = λ w (h, e). ((λ k. ground (arith, h k)), e) }

  healthy_lem :
      (healthy : Bool) (pooled : Pooled) (rest : List Pooled)
      (later : Exec (World S) (Option Pooled))
      → Triple (OfBooks S (IdleIs S rest)) later (Found S) (Balanced S)
      → Triple
          (OfBooks S (TakenFrom S pooled rest))
          (if healthy
            then pure (some pooled)
            else do on_shell S (S.close false pooled.session); release_token S pooled.token; later)
          (Found S)
          (Balanced S)
  healthy_lem true pooled rest later after = record { at = λ w (h, _). unfold ◌>>=◌ in h }
  healthy_lem false pooled rest later after =
      Triple-bind _ _ (close_lem (TakenFrom S pooled rest) false pooled.session)
        λ _. Triple-bind _ _ (give_back_lem pooled rest) λ _. after

  pop_healthy_lem :
      (idle : List Pooled)
      → Triple (OfBooks S (IdleIs S idle)) (pop_healthy S idle) (Found S) (Balanced S)
  unfolding pop_healthy
  pop_healthy_lem [] = record { at = λ w (h, _). unfold ◌>>=◌ in h }
  pop_healthy_lem (pooled ∷ rest) = Triple-bind _ _ (set_idle_lem S pooled rest) λ _.
      Triple-bind _ _ (Triple-gets _ (λ _. OfBooks S (TakenFrom S pooled rest)))
        λ healthy. healthy_lem healthy pooled rest (pop_healthy S rest) (pop_healthy_lem rest)

  give_up_lem :
      (token session : ℕ) (w : World S)
      → Books S (one token) w
      → (Balanced S) ((release_token S token >> on_shell S (S.close false session)) w).1
  unfolding release_token on_shell ◌>>=◌
  give_up_lem token session w h k = ground (arith, h k)

  new_session_lem :
      (token : ℕ)
      → Triple (Books S (one token)) (new_session S) (λ _. Books S (one token)) (Balanced S)
  unfolding new_session ◌>>=◌
  new_session_lem token = record { at = λ w h. h }

  open_session_lem :
      Triple (Balanced S) (open_session S) (λ pooled. Books S (one pooled.token)) (Balanced S)
  unfolding open_session
  open_session_lem =
      Triple-bind _ _ (Triple-Keeps _ (λ w h. h) (Keeps-on_shell S (AreBalanced S) _)) λ token.
        Triple-bind _ _ (note_taken_lem S token) λ _.
          Triple-bind _ _ (new_session_lem token) λ session.
            Triple-bind _ _
              (Triple-try_reraise _ _
                (Triple-Keeps _ (λ w h. h) (Keeps-on_shell S (AreHeld S token) _))
                (give_up_lem token session))
              λ _. Triple-pure _ (λ (pooled : Pooled). Books S (one pooled.token))

  or_open_lem :
      (found : Option Pooled)
      → Triple (Found S found) (or_open S found) (λ pooled. Books S (one pooled.token)) (Balanced S)
  unfolding or_open
  or_open_lem none = open_session_lem
  or_open_lem (some pooled) = Triple-pure pooled (λ (pooled : Pooled). Books S (one pooled.token))

  acquire_lem : Triple (Balanced S) (acquire S) (λ pooled. Books S (one pooled.token)) (Balanced S)
  unfolding acquire
  acquire_lem =
      Triple-bind _ _ (read_idle_lem S)
        λ idle. Triple-bind _ _ (pop_healthy_lem idle) λ found. or_open_lem found

  discard_lem :
      (logout : Bool) (pooled : Pooled)
      → Triple (Books S (one pooled.token)) (discard S logout pooled) (λ _. Balanced S) (Balanced S)
  unfolding discard
  discard_lem logout pooled =
      Triple-bind _ _ (close_lem (AreHeld S pooled.token) logout pooled.session)
        λ _. last_token_lem S pooled.token

  reuse_lem :
      (reused : Bool) (pooled : Pooled)
      → Triple
          (Books S (one pooled.token))
          (if reused then append_idle S pooled else discard S true pooled)
          (λ _. Balanced S)
          (Balanced S)
  unfolding append_idle ◌>>=◌
  reuse_lem true pooled = record { at = λ w h. h }
  reuse_lem false pooled = discard_lem true pooled

  release_lem :
      (reuse_sessions : Bool) (pooled : Pooled)
      → Triple
          (Books S (one pooled.token))
          (release S reuse_sessions pooled)
          (λ _. Balanced S)
          (Balanced S)
  unfolding release
  release_lem reuse_sessions pooled =
      Triple-bind _ _ (can_reuse_lem S reuse_sessions pooled) λ reused. reuse_lem reused pooled

  pooled_run_lem :
      (pooled : Pooled) (commands : List Str)
      → Triple
          (Books S (one pooled.token))
          (pooled_run_commands S pooled commands)
          (λ _. Books S (one pooled.token))
          (Balanced S)
  unfolding pooled_run_commands
  pooled_run_lem pooled commands =
      Triple-try_reraise _ _
        (Triple-Keeps _ (λ w h. h) (command_loop-Keeps S (AreHeld S pooled.token) pooled commands))
        (λ w h.
          let (r, w') = discard S false pooled w in
          both-Ends (Balanced S) r w' ((discard_lem false pooled).at w h))

  -- Provided that closing a session does not raise: if the pool holds each token as often as an idle
  -- session has it, then it does after `run_commands`, whichever call raises on the way, and whether
  -- sessions are reused or not. So it holds no token without a session, and no idle session is without
  -- its token.
  pub run_commands-Balanced :
      (reuse_sessions : Bool) (commands : List Str) (w : World S)
      → Balanced S w
      → Balanced S (run_commands S reuse_sessions commands w).1
  unfolding run_commands
  run_commands-Balanced reuse_sessions commands w h =
      let (r, w') = run_commands S reuse_sessions commands w in
      let all : Triple (Balanced S) (run_commands S reuse_sessions commands) (λ _. Balanced S)
          (Balanced S) =
        Triple-bind _ _ acquire_lem λ pooled.
          Triple-bind _ _ (pooled_run_lem pooled commands) λ results.
            Triple-bind _ _ (release_lem reuse_sessions pooled)
              λ _. Triple-pure results (λ _. Balanced S) in
      both-Ends (Balanced S) r w' (all.at w h)

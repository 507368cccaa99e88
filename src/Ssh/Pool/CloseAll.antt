-- ===== src/Ssh/Pool/CloseAll.antt =====
-- `close_all` gives every token back.
use device_cli_tool.Base.{ℕ, ◌+◌, Bool, true, ◌≡◌, refl, ap, ◌∙◌, arith, List, [], ◌∷◌, is_ok}
use device_cli_tool.Base.Exec.{gets, ◌>>=◌}
use device_cli_tool.Base.Exec.Triples.{Triple, Triple-bind, Triple-pure}
use device_cli_tool.Base.Exec.Keeps.{both-Ends}
use device_cli_tool.Ssh.Pool.{Shell, Pooled, World, release_token, set_idle, close_each, close_all}
use device_cli_tool.Ssh.Pool.Books.{one, count_token, Balanced, OfBooks}
use device_cli_tool.Ssh.Pool.Balance.{close_lem}

-- No session is idle any more; the tokens that are held are those of `sessions`, and `extra` more.
abbrev Closing : (ℕ → ℕ) → List Pooled → List Pooled → (ℕ → ℕ) → Type 0
Closing extra sessions idle held =
    ((k : ℕ) → held k ≡ extra k + count_token k sessions) × (idle ≡ [])

module _ (S : Shell)
    (closes : (logout : Bool) (session : ℕ) (s : S.State)
      → is_ok (S.close logout session s).0 ≡ true) where
  Done : World S → Type 0
  Done w = OfBooks S (Closing (λ k. 0) []) w

  give_back_lem :
      (extra : ℕ → ℕ) (token : ℕ)
      → Triple
          (OfBooks S (Closing (λ k. one token k + extra k) []))
          (release_token S token)
          (λ _. OfBooks S (Closing extra []))
          Done
  unfolding release_token ◌>>=◌
  give_back_lem extra token = record { at = λ w (h, e). ((λ k. ground (arith, h k)), e) }

  close_each_lem :
      (extra : ℕ → ℕ) (sessions : List Pooled)
      → Triple
          (OfBooks S (Closing extra sessions))
          (close_each S sessions)
          (λ _. OfBooks S (Closing extra []))
          Done
  unfolding close_each
  close_each_lem extra [] = Triple-pure tt (λ _. OfBooks S (Closing extra []))
  close_each_lem extra (pooled ∷ older) =
      let more : ℕ → ℕ = λ k. one pooled.token k + extra k in
      Triple-bind _ _
        (record {
          at = λ w (h, e). (close_each_lem more older).at w ((λ k. omega (arith, h k)), e);
        })
        λ _.
          Triple-bind _ _ (close_lem S closes (Closing more []) true pooled.session)
            λ _. give_back_lem extra pooled.token

  forget_lem :
      (sessions : List Pooled)
      → Triple
          (λ (w : World S). Balanced S w × (w.idle ≡ sessions))
          (set_idle S [])
          (λ _. OfBooks S (Closing (λ k. 0) sessions))
          Done
  unfolding set_idle ◌>>=◌
  forget_lem sessions = record {
    at = λ w (h, e). ((λ k. omega (arith, h k ∙ ap (λ l. count_token k l) e)), refl);
  }

  read_lem :
      Triple
        (Balanced S)
        (gets (λ (w : World S). w.idle))
        (λ idle w. Balanced S w × (w.idle ≡ idle))
        Done
  unfolding ◌>>=◌
  read_lem = record { at = λ w h. (h, refl) }

  -- Provided that closing a session does not raise, and that the tokens that are held are those of the
  -- idle sessions: after `close_all` no session is idle and no token is held.
  close_all-empty :
      (w : World S)
      → Balanced S w
      → ((k : ℕ) → (close_all S w).1.held k ≡ 0) × ((close_all S w).1.idle ≡ [])
  unfolding close_all Done
  close_all-empty w h =
      let (r, w') = close_all S w in
      let all : Triple (Balanced S) (close_all S) (λ _. Done) Done =
        Triple-bind _ _ read_lem
          λ sessions. Triple-bind _ _ (forget_lem sessions) λ _. close_each_lem (λ k. 0) sessions in
      both-Ends Done r w' (all.at w h)

-- ===== src/Tools/ReadonlyTransfer/Run/Closed.antt =====
-- A run of the transfer tool leaves no session open.
use device_cli_tool.Base.{Bool, ◌≡◌, refl, Option, Result, ok, err, system_exit}
use device_cli_tool.Base.Exec.{Exec, continue, after_finally, lift, try_finally, ◌>>=◌}
use device_cli_tool.Base.Exec.Triples.{Ends}
use device_cli_tool.Text.{Str}
use device_cli_tool.Tools.ReadonlyTransfer.{Args, Auth, validate_args, resolve_auth}
use device_cli_tool.Tools.ReadonlyTransfer.Run.{
  ReadOnlyFileTransfer, Outcome, run_operation, run_client, reported, attempt, guarded,
  run_transfer,
}

-- A client whose `connect` opens a session or raises, and whose `close` closes it.
pub record IsClosing {W : Type 0} (P : W → Type 0) (client : ReadOnlyFileTransfer W) : Type 0 where
  pub connect_fails : (w : W) → P w → Ends (λ (_ : Unit {0}) _. Unit {0}) P (client.connect w)
  pub closes : (w : W) → P (client.close w).1

module _ {A B W : Type 0} (P : W → Type 0) where
  finally_at : (r : Result A) (q : Result B × W) → P q.1 → P (after_finally r q).1
  finally_at r (ok b, w) h = h
  finally_at r (err e, w) h = h

  continue_at :
      (f : A → Exec W B) (r : Result A) (w : W)
      → ((a : A) (w : W) → P (f a w).1)
      → Ends (λ _ _. Unit {0}) P (r, w)
      → P (continue r f w).1
  continue_at f (ok a) w hf h = hf a w
  continue_at f (err e) w hf h = h

  lifted_at :
      (f : A → Exec W B) (r : Result A) (w : W)
      → ((a : A) → r ≡ ok a → P (f a w).1)
      → P w
      → P (continue r f w).1
  lifted_at f (ok a) w hf h = hf a refl
  lifted_at f (err e) w hf h = h

reported_at :
    {W : Type 0} (P : W → Type 0) (r : Result Outcome) (w : W) → P w → P (reported (r, w)).1
reported_at P (ok o) w h = h
reported_at P (err (system_exit m)) w h = h
reported_at P (err e) w h = h

module _ (digest : Str → Str) {W : Type 0} (environ : Str → Option Str)
    (build_client : Args → Auth → Result (ReadOnlyFileTransfer W)) (include_paths : Bool)
    (P : W → Type 0) (a : Args)
    (closing : (auth : Auth) (client : ReadOnlyFileTransfer W)
      → build_client a auth ≡ ok client
      → IsClosing P client) where
  client_at :
      (client : ReadOnlyFileTransfer W) (w : W)
      → IsClosing P client
      → P w
      → P (run_client digest client a include_paths w).1
  unfolding run_client ◌>>=◌
  client_at client w h hw =
      let (r, w') = client.connect w in
      continue_at P (λ _. try_finally (run_operation digest client a include_paths) client.close) r
        w'
        (λ u w.
          let (q, w2) = run_operation digest client a include_paths w in
          finally_at P q (client.close w2) (h.closes w2))
        (h.connect_fails w hw)

  attempt_at :
      (auth : Auth) (w : W) → P w → P (attempt digest environ build_client include_paths a auth w).1
  unfolding attempt ◌>>=◌
  attempt_at auth w hw =
      lifted_at P (λ client. run_client digest client a include_paths) (build_client a auth) w
        (λ client e. client_at client w (closing auth client e) hw) hw

  guarded_at :
      (auth : Auth) (w : W) → P w → P (guarded digest environ build_client include_paths a auth w).1
  unfolding guarded
  guarded_at auth w hw =
      let (r, w') = attempt digest environ build_client include_paths a auth w in
      reported_at P r w' (attempt_at auth w hw)

  pub run_transfer-at :
      (w : W) → P w → P (run_transfer digest environ build_client include_paths a w).1
  unfolding run_transfer ◌>>=◌
  run_transfer-at w hw =
      lifted_at P
        (λ _. lift (resolve_auth environ a) >>= guarded digest environ build_client include_paths a)
        (validate_args a) w
        (λ u e.
          lifted_at P (guarded digest environ build_client include_paths a) (resolve_auth environ a)
            w (λ auth e'. guarded_at auth w hw) hw)
        hw

-- ===== src/Netconf/Transaction/CleanUp.antt =====
-- The lock is given back and an uncommitted change is discarded, wherever the transaction fails.
use device_cli_tool.Base.{
  String, Bool, true, false, Option, none, some, List, [], ◌∷◌, ◌++◌, ◌≡◌, refl, ◌∙◌, arith,
  if◌then◌else◌, Error, Result, ok, err, is_ok, netconf_capability, append_assoc, append-nil,
}
use device_cli_tool.Base.Exec.{Exec, ◌>>=◌, ◌>>◌, try_finally}
use device_cli_tool.Text.{Str}
use device_cli_tool.Netconf.Model.{mutation_target, confirmed_commit_kwargs}
use device_cli_tool.Netconf.Session.{
  Rpc, Ncclient, Event, World, call, sent, session_closed, edit_config, lock, unlock, validate,
  commit, discard_changes,
}
use device_cli_tool.Netconf.Client.{rpc, close_session, require_none}
use device_cli_tool.Netconf.Transaction.{
  Request, Transaction, record_step, step, on_world, set_committed, verify_step, finalize_step,
  change, discard_unless_committed, clean_up, missing_for, locked_change, transact,
}

-- The requests of the inner `finally`.
abbrev pub clean_up_events : Bool → List Event
clean_up_events true = sent (unlock mutation_target) ∷ []
clean_up_events false = sent discard_changes ∷ sent (unlock mutation_target) ∷ []

abbrev pub begin : (N : Ncclient) → World N → Transaction N
begin N w = record { world = w; steps = []; committed = false }

module _ (N : Ncclient) where
  log-rpc : (request : Rpc) (w : World N) → (rpc N request w).1.log ≡ w.log ++ (sent request ∷ [])
  unfolding rpc call ◌>>=◌
  log-rpc request w = ground arith

  log-recorded :
      (name : String) (r : Result Str × World N) (t : Transaction N)
      → (record_step N name r t).1.world.log ≡ r.1.log
  log-recorded name (ok xml, w) t = refl
  log-recorded name (err e, w) t = refl

  committed-recorded :
      (name : String) (r : Result Str × World N) (t : Transaction N)
      → (record_step N name r t).1.committed ≡ t.committed
  committed-recorded name (ok xml, w) t = refl
  committed-recorded name (err e, w) t = refl

  log-step :
      (name : String) (request : Rpc) (t : Transaction N)
      → (step N name request t).1.world.log ≡ t.world.log ++ (sent request ∷ [])
  unfolding step
  log-step name request t = log-recorded name (rpc N request t.world) t ∙ log-rpc request t.world

  committed-step :
      (name : String) (request : Rpc) (t : Transaction N)
      → (step N name request t).1.committed ≡ t.committed
  unfolding step
  committed-step name request t = committed-recorded name (rpc N request t.world) t

  log-discard :
      (t : Transaction N)
      → (discard_unless_committed N t).1.world.log
        ≡ t.world.log ++ (if t.committed then [] else sent discard_changes ∷ [])
  unfolding discard_unless_committed ◌>>=◌
  log-discard t =
      ground (arith, log-step "discard-changes" discard_changes t, append-nil t.world.log)

  discard_lem :
      (t : Transaction N)
      → ((discard_unless_committed N t).0 ≡ ok tt)
        × ((discard_unless_committed N t).1.committed ≡ t.committed)
  unfolding discard_unless_committed ◌>>=◌
  discard_lem t = ground (arith, committed-step "discard-changes" discard_changes t)

  clean_up_lem :
      (t : Transaction N)
      → ((clean_up N t).0 ≡ ok tt)
        × ((clean_up N t).1.committed ≡ t.committed)
        × ((clean_up N t).1.world.log ≡ t.world.log ++ clean_up_events t.committed)
  unfolding clean_up ◌>>=◌
  clean_up_lem t =
      let d = (discard_unless_committed N t).1 in
      let kept = discard_lem t in
      let unlocked = log-step "unlock" (unlock mutation_target) d in
      let flag = committed-step "unlock" (unlock mutation_target) d in
      let discarded = log-discard t in
      let joined =
        append_assoc t.world.log (sent discard_changes ∷ []) (sent (unlock mutation_target) ∷ []) in
      (
        ground (arith, kept),
        ground (arith, kept, flag),
        ground (arith, kept, unlocked, discarded, joined, append-nil t.world.log),
      )

  log-close : (w : World N) → (close_session N w).1.log ≡ w.log ++ (session_closed ∷ [])
  unfolding close_session call ◌>>=◌
  log-close w = refl

module _ (N : Ncclient) (q : Request) (timeout_text : Str) where
  -- The inner `try` with its `finally`: the outcome is that of the change.
  guarded_lem :
      (t : Transaction N)
      → (try_finally (change N q timeout_text) (clean_up N) t).0 ≡ (change N q timeout_text t).0
  unfolding ◌>>=◌
  guarded_lem t = ground (arith, clean_up_lem N (change N q timeout_text t).1)

  log-guarded :
      (t : Transaction N)
      → (try_finally (change N q timeout_text) (clean_up N) t).1.world.log
        ≡ (change N q timeout_text t).1.world.log
          ++ clean_up_events (change N q timeout_text t).1.committed
  unfolding ◌>>=◌
  log-guarded t = ground (arith, clean_up_lem N (change N q timeout_text t).1)

  -- The three requests that must succeed before a change counts as committed.
  abbrev pub edit_validate_commit : Exec (Transaction N) (Unit {0})
  edit_validate_commit = do
    step N "edit-config" (edit_config mutation_target q.config_xml)
    step N "validate" (validate mutation_target)
    step N "commit" (commit (confirmed_commit_kwargs timeout_text q.persist))

  committed-verify :
      (filter : Option Str) (t : Transaction N) → (verify_step N filter t).1.committed ≡ t.committed
  unfolding verify_step ◌>>=◌
  committed-verify none t = refl
  committed-verify (some filter) t = committed-step N "verify" _ t

  committed-finalize :
      (finalize : Bool) (persist : Option Str) (t : Transaction N)
      → (finalize_step N finalize persist t).1.committed ≡ t.committed
  unfolding finalize_step ◌>>=◌
  committed-finalize false persist t = refl
  committed-finalize true persist t = committed-step N "finalize" _ t

  committed-change :
      (t : Transaction N)
      → t.committed ≡ false
      → (change N q timeout_text t).1.committed ≡ is_ok (edit_validate_commit t).0
  unfolding change set_committed ◌>>=◌
  committed-change t h =
      let t1 = (step N "edit-config" (edit_config mutation_target q.config_xml) t).1 in
      let t2 = (step N "validate" (validate mutation_target) t1).1 in
      let args = confirmed_commit_kwargs timeout_text q.persist in
      let t3 = record (step N "commit" (commit args) t2).1 { committed = true } in
      let t4 = (verify_step N q.verify_filter_xml t3).1 in
      ground (
        arith,
        committed-step N "edit-config" (edit_config mutation_target q.config_xml) t,
        committed-step N "validate" (validate mutation_target) t1,
        committed-step N "commit" (commit args) t2,
        committed-verify q.verify_filter_xml t3,
        committed-finalize q.finalize q.persist t4,
      )

  -- Once the lock is granted, the session ends like this whatever fails on the way: unless the
  -- edit, the validation and the confirmed commit all succeeded, the changes are discarded; then
  -- the lock is given back; then the session is closed. Nothing comes between.
  pub log-transact :
      (w : World N)
      → missing_for N q.persist (N.server_capabilities w.state) ≡ []
      → (step N "lock" (lock mutation_target) (begin N w)).0 ≡ ok tt
      → let locked = (step N "lock" (lock mutation_target) (begin N w)).1 in
        (transact N q timeout_text w).1.log
        ≡ (change N q timeout_text locked).1.world.log
          ++ (clean_up_events (is_ok (edit_validate_commit locked).0) ++ (session_closed ∷ []))
  unfolding transact locked_change on_world require_none close_session call ◌>>=◌
  log-transact w capable granted =
      let locked = (step N "lock" (lock mutation_target) (begin N w)).1 in
      let flag = committed-step N "lock" (lock mutation_target) (begin N w) in
      rw capable (
        ground (
          arith,
          log-guarded locked,
          committed-change locked flag,
          append_assoc (change N q timeout_text locked).1.world.log
              (clean_up_events (is_ok (edit_validate_commit locked).0)) (session_closed ∷ []),
        ))

  -- Without the capabilities nothing is locked or edited: the session is closed at once.
  transact-incapable :
      (w : World N) {name : Str} {names : List Str}
      → missing_for N q.persist (N.server_capabilities w.state) ≡ name ∷ names
      → ((transact N q timeout_text w).1.log ≡ w.log ++ (session_closed ∷ []))
        × ((transact N q timeout_text w).0
            ≡ err (netconf_capability "NETCONF server does not advertise required capabilities"))
  unfolding transact locked_change on_world require_none close_session call ◌>>=◌
  transact-incapable w lacking = rw lacking (refl, refl)

  -- If the lock is refused, nothing else is requested, and the refusal is raised.
  pub transact-not_granted :
      (w : World N) {e : Error}
      → missing_for N q.persist (N.server_capabilities w.state) ≡ []
      → (step N "lock" (lock mutation_target) (begin N w)).0 ≡ err e
      → ((transact N q timeout_text w).1.log
          ≡ w.log ++ (sent (lock mutation_target) ∷ session_closed ∷ []))
        × ((transact N q timeout_text w).0 ≡ err e)
  unfolding transact locked_change on_world require_none close_session call ◌>>=◌
  transact-not_granted w capable refused = rw capable (
      ground (
        arith,
        log-step N "lock" (lock mutation_target) (begin N w),
        append_assoc w.log (sent (lock mutation_target) ∷ []) (session_closed ∷ []),
      ))

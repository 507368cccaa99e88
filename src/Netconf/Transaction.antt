-- ===== src/Netconf/Transaction.antt =====
-- `NetconfClient.execute_confirmed_commit` of cli_tool/transport/netconf.py.
pub mod Allowed
pub mod CleanUp
use device_cli_tool.Base.{
  String, Bool, true, false, Option, none, some, List, [], ◌∷◌, ◌++◌, if◌then◌else◌, Result, ok,
  err,
}
use device_cli_tool.Base.Exec.{
  Exec, pure, lift, gets, modify, ◌>>=◌, ◌>>◌, try_finally, ignore_errors,
}
use device_cli_tool.Text.{Str}
use device_cli_tool.Netconf.Model.{
  Seconds, mutation_target, missing_mutation_capabilities, missing_persist_capabilities,
  confirm_timeout_text, validate_persist_token, confirmed_commit_kwargs, commit_plain,
  commit_persisted,
}
use device_cli_tool.Netconf.Session.{
  Rpc, Ncclient, World, get, edit_config, lock, unlock, validate, commit, discard_changes,
}
use device_cli_tool.Netconf.Client.{Client, connect, close_session, rpc, require_none}

pub record StepResult : Type 0 where
  pub step : String
  pub xml : Str

pub record MutationResult : Type 0 where
  pub steps : List StepResult
  pub finalized : Bool
  pub confirm_timeout : Seconds
  pub persist : Option Str

-- What the caller of `execute_confirmed_commit` passes.
pub record Request : Type 0 where
  pub config_xml : Str
  pub verify_filter_xml : Option Str
  pub confirm_timeout : Seconds
  pub finalize : Bool
  pub persist : Option Str

-- The variables `steps` and `committed`, beside the world.
pub record Transaction (N : Ncclient) : Type 0 where
  pub world : World N
  pub steps : List StepResult
  pub committed : Bool

abbrev pub steps_of : Result (Unit {0}) → List StepResult → Result (List StepResult)
steps_of (ok _) steps = ok steps
steps_of (err e) steps = err e

unfoldable pub validate_persist : Option Str → Result (Unit {0})
validate_persist none = ok tt
validate_persist (some token) = validate_persist_token token

module _ (N : Ncclient) where
  abbrev pub record_step :
      String → Result Str × World N → Transaction N → Result (Unit {0}) × Transaction N
  record_step name (ok xml, w) t =
      (ok tt, record t { world = w; steps = t.steps ++ (record { step = name; xml = xml } ∷ []) })
  record_step name (err e, w) t = (err e, record t { world = w })

  -- `steps.append(_time_step(name, call))`
  unfoldable pub step : String → Rpc → Exec (Transaction N) (Unit {0})
  step name request t = record_step name (rpc N request t.world) t

  -- A call that keeps `steps` and `committed`.
  unfoldable pub on_world : {A : Type 0} → Exec (World N) A → Exec (Transaction N) A
  on_world action t = let (r, w) = action t.world in (r, record t { world = w })

  unfoldable pub set_committed : Exec (Transaction N) (Unit {0})
  set_committed = modify (λ t. record t { committed = true })

  unfoldable pub verify_step : Option Str → Exec (Transaction N) (Unit {0})
  verify_step none = pure tt
  verify_step (some filter) = step "verify" (get (some filter))

  unfoldable pub finalize_args : Option Str → Rpc
  finalize_args none = commit commit_plain
  finalize_args (some token) = commit (commit_persisted token)

  unfoldable pub finalize_step : Bool → Option Str → Exec (Transaction N) (Unit {0})
  finalize_step false persist = pure tt
  finalize_step true persist = step "finalize" (finalize_args persist)

  -- The inner `try`.
  unfoldable pub change : Request → Str → Exec (Transaction N) (Unit {0})
  change q timeout_text = do
    step "edit-config" (edit_config mutation_target q.config_xml)
    step "validate" (validate mutation_target)
    step "commit" (commit (confirmed_commit_kwargs timeout_text q.persist))
    set_committed
    verify_step q.verify_filter_xml
    finalize_step q.finalize q.persist

  unfoldable pub discard_unless_committed : Exec (Transaction N) (Unit {0})
  discard_unless_committed t =
      if t.committed then (ok tt, t) else ignore_errors (step "discard-changes" discard_changes) t

  -- The inner `finally`.
  unfoldable pub clean_up : Exec (Transaction N) (Unit {0})
  clean_up = do discard_unless_committed; ignore_errors (step "unlock" (unlock mutation_target))

  unfoldable pub missing_for : Option Str → List Str → List Str
  missing_for none capabilities = missing_mutation_capabilities capabilities
  missing_for (some token) capabilities = missing_persist_capabilities capabilities

  -- The body of the outer `try`.
  unfoldable pub locked_change : Request → Str → Exec (Transaction N) (Unit {0})
  locked_change q timeout_text = do
    capabilities ← gets (λ (t : Transaction N). N.server_capabilities t.world.state)
    on_world (require_none N (missing_for q.persist capabilities))
    step "lock" (lock mutation_target)
    try_finally (change q timeout_text) clean_up

  -- `timeout_text` is checked, and the session is opened, before the outer `try`.
  unfoldable pub transact : Request → Str → Exec (World N) (List StepResult)
  transact q timeout_text w =
      let start : Transaction N = record { world = w; steps = []; committed = false } in
      let (r, t) = try_finally (locked_change q timeout_text) (on_world (close_session N)) start in
      (steps_of r t.steps, t.world)

module _ (N : Ncclient) (key_digest : Str → Str) where
  unfoldable pub execute_confirmed_commit : Client → Request → Exec (World N) MutationResult
  execute_confirmed_commit c q = do
    timeout_text ← lift (confirm_timeout_text q.confirm_timeout)
    lift (validate_persist q.persist)
    connect N key_digest c
    steps ← transact N q timeout_text
    pure (record {
      steps = steps;
      finalized = q.finalize;
      confirm_timeout = q.confirm_timeout;
      persist = q.persist;
    })

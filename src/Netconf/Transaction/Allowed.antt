-- ===== src/Netconf/Transaction/Allowed.antt =====
-- What `execute_confirmed_commit` may ask of the server.
use device_cli_tool.Base.{
  String, Bool, true, false, Option, none, some, List, [], ◌∷◌, ◌≡◌, refl, sym, if◌then◌else◌, ◌⊎◌,
  inl, inr, Result, ok, err,
}
use device_cli_tool.Base.Exec.{Exec, ◌>>=◌, ignore_errors}
use device_cli_tool.Base.Exec.Keeps.{
  Keeps, Keeps-at, Keeps-of, keeps_rules, Keeps-pure, Keeps-raise, Keeps-lift, Keeps-gets,
  Keeps-bind, Keeps-ignore_errors, Keeps-try_finally,
}
use device_cli_tool.Text.{Str, codes}
use device_cli_tool.Netconf.Model.{mutation_target, CommitArgs, confirmed_commit_kwargs}
use device_cli_tool.Netconf.Session.{
  Rpc, Ncclient, World, get, get_config, edit_config, lock, unlock, validate, commit,
  discard_changes, cancel_commit,
}
use device_cli_tool.Netconf.Client.{Client, rpc, require_none}
use device_cli_tool.Netconf.Client.Sent.{LogOf, rpc-Keeps, close_session-Keeps, connect-Keeps}
use device_cli_tool.Netconf.Transaction.{
  Request, Transaction, record_step, step, set_committed, verify_step, finalize_args, finalize_step,
  discard_unless_committed, transact, on_world, change, clean_up, locked_change,
  execute_confirmed_commit,
}

-- A commit is the confirmed one, which the device reverts by itself, or, if the caller asked to
-- finalize, the confirming one.
abbrev pub CommitAllowed : Request → CommitArgs → Type 0
CommitAllowed q a =
    ((a.confirmed ≡ true) × (a.persist ≡ q.persist) × (a.persist_id ≡ none))
    ⊎ ((q.finalize ≡ true) × (a.confirmed ≡ false) × (a.persist_id ≡ q.persist))

-- No request names a datastore other than candidate.
abbrev pub RpcAllowed : Request → Rpc → Type 0
RpcAllowed q (get filter) = Unit
RpcAllowed q (get_config source filter) = ⊥
RpcAllowed q (edit_config target xml) = (target ≡ codes "candidate") × (xml ≡ q.config_xml)
RpcAllowed q (lock target) = target ≡ codes "candidate"
RpcAllowed q (unlock target) = target ≡ codes "candidate"
RpcAllowed q (validate source) = source ≡ codes "candidate"
RpcAllowed q (commit args) = CommitAllowed q args
RpcAllowed q discard_changes = Unit
RpcAllowed q (cancel_commit id) = ⊥

module _ (N : Ncclient) (q : Request) where
  abbrev pub LogAllowed : World N → Type 0
  LogAllowed w = LogOf (RpcAllowed q) w

-- A predicate that all these requests have.
module _ (N : Ncclient) (q : Request) (Allowed : Rpc → Type 0)
    (permits : (request : Rpc) → RpcAllowed q request → Allowed request) where
  abbrev StepsAllowed : Transaction N → Type 0
  StepsAllowed t = LogOf Allowed t.world

  recorded :
      (name : String) (r : Result Str × World N) (t : Transaction N)
      → (LogOf Allowed) r.1
      → StepsAllowed (record_step N name r t).1
  recorded name (ok xml, w) t h = h
  recorded name (err e, w) t h = h

  step-Keeps :
      (name : String) (request : Rpc)
      → RpcAllowed q request
      → Keeps StepsAllowed (step N name request)
  unfolding step
  step-Keeps name request allowed = Keeps-of (step N name request) λ t h.
      recorded name (rpc N request t.world) t
        (Keeps-at (rpc N request) (rpc-Keeps N Allowed request (permits request allowed)) t.world h)

  on_world-Keeps :
      {A : Type 0} (action : Exec (World N) A)
      → Keeps (LogOf Allowed) action
      → Keeps StepsAllowed (on_world N action)
  unfolding on_world
  on_world-Keeps action k = Keeps-of _ λ t h. Keeps-at action k t.world h

  set_committed-Keeps : Keeps StepsAllowed (set_committed N)
  unfolding set_committed ◌>>=◌
  set_committed-Keeps = Keeps-of _ (λ t h. h)

  verify_step-Keeps : (filter : Option Str) → Keeps StepsAllowed (verify_step N filter)
  unfolding verify_step
  verify_step-Keeps none = search keeps_rules
  verify_step-Keeps (some filter) = step-Keeps _ _ tt

  finalize_args_allowed :
      (persist : Option Str)
      → q.finalize ≡ true
      → q.persist ≡ persist
      → RpcAllowed q (finalize_args N persist)
  unfolding finalize_args
  finalize_args_allowed none f p = inr (f, refl, sym p)
  finalize_args_allowed (some token) f p = inr (f, refl, sym p)

  finalize_step-Keeps :
      (finalize : Bool) (persist : Option Str)
      → q.finalize ≡ finalize
      → q.persist ≡ persist
      → Keeps StepsAllowed (finalize_step N finalize persist)
  unfolding finalize_step
  finalize_step-Keeps false persist f p = search keeps_rules
  finalize_step-Keeps true persist f p = step-Keeps _ _ (finalize_args_allowed persist f p)

  confirmed_allowed :
      (timeout_text : Str) → CommitAllowed q (confirmed_commit_kwargs timeout_text q.persist)
  unfolding confirmed_commit_kwargs
  confirmed_allowed timeout_text = inl (refl, refl, refl)

  edit-Keeps : Keeps StepsAllowed (step N "edit-config" (edit_config mutation_target q.config_xml))
  edit-Keeps = step-Keeps _ _ (refl, refl)

  validate-Keeps : Keeps StepsAllowed (step N "validate" (validate mutation_target))
  validate-Keeps = step-Keeps _ _ refl

  commit-Keeps :
      (timeout_text : Str)
      → Keeps StepsAllowed
          (step N "commit" (commit (confirmed_commit_kwargs timeout_text q.persist)))
  commit-Keeps timeout_text = step-Keeps _ _ (confirmed_allowed timeout_text)

  unlock-Keeps : Keeps StepsAllowed (step N "unlock" (unlock mutation_target))
  unlock-Keeps = step-Keeps _ _ refl

  lock-Keeps : Keeps StepsAllowed (step N "lock" (lock mutation_target))
  lock-Keeps = step-Keeps _ _ refl

  discard-Keeps : Keeps StepsAllowed (step N "discard-changes" discard_changes)
  discard-Keeps = step-Keeps _ _ tt

  verify-Keeps : Keeps StepsAllowed (verify_step N q.verify_filter_xml)
  verify-Keeps = verify_step-Keeps q.verify_filter_xml

  finalize-Keeps : Keeps StepsAllowed (finalize_step N q.finalize q.persist)
  finalize-Keeps = finalize_step-Keeps q.finalize q.persist refl refl

  change-Keeps : (timeout_text : Str) → Keeps StepsAllowed (change N q timeout_text)
  unfolding change
  change-Keeps timeout_text = Keeps-bind _ _ edit-Keeps λ _. Keeps-bind _ _ validate-Keeps λ _.
      Keeps-bind _ _ (commit-Keeps timeout_text)
        λ _. Keeps-bind _ _ set_committed-Keeps λ _. Keeps-bind _ _ verify-Keeps λ _. finalize-Keeps

  discard_or_not :
      (b : Bool) (t : Transaction N)
      → StepsAllowed t
      → StepsAllowed
          (if b then (ok tt, t) else ignore_errors (step N "discard-changes" discard_changes) t).1
  discard_or_not true t h = h
  discard_or_not false t h = Keeps-at _ (Keeps-ignore_errors _ discard-Keeps) t h

  discard_unless-Keeps : Keeps StepsAllowed (discard_unless_committed N)
  unfolding discard_unless_committed
  discard_unless-Keeps = Keeps-of _ λ t h. discard_or_not t.committed t h

  clean_up-Keeps : Keeps StepsAllowed (clean_up N)
  unfolding clean_up
  clean_up-Keeps = search (keeps_rules, discard_unless-Keeps, unlock-Keeps)

  require_none-Keeps : (names : List Str) → Keeps (LogOf Allowed) (require_none N names)
  unfolding require_none
  require_none-Keeps [] = Keeps-pure tt
  require_none-Keeps (name ∷ names) = Keeps-raise _

  locked_change-Keeps : (timeout_text : Str) → Keeps StepsAllowed (locked_change N q timeout_text)
  unfolding locked_change
  locked_change-Keeps timeout_text = Keeps-bind _ _ (Keeps-gets _) λ capabilities.
      Keeps-bind _ _ (on_world-Keeps _ (require_none-Keeps _)) λ _.
        Keeps-bind _ _ lock-Keeps
          λ _. Keeps-try_finally _ _ (change-Keeps timeout_text) clean_up-Keeps

  transact-Keeps : (timeout_text : Str) → Keeps (LogOf Allowed) (transact N q timeout_text)
  unfolding transact
  transact-Keeps timeout_text = Keeps-of _ λ w h.
      Keeps-at _
        (Keeps-try_finally _ _ (locked_change-Keeps timeout_text)
          (on_world-Keeps _ (close_session-Keeps N Allowed)))
        _ h

  module _ (key_digest : Str → Str) where
    pub execute-Keeps :
        (c : Client) → Keeps (LogOf Allowed) (execute_confirmed_commit N key_digest c q)
    unfolding execute_confirmed_commit
    execute-Keeps c = Keeps-bind _ _ (Keeps-lift _) λ timeout_text.
        Keeps-bind _ _ (Keeps-lift _) λ _.
          Keeps-bind _ _ (connect-Keeps N Allowed key_digest c)
            λ _. Keeps-bind _ _ (transact-Keeps timeout_text) λ steps. Keeps-pure _

-- Whatever the server answers, and wherever it fails, a confirmed-commit transaction only locks,
-- edits (with the given configuration), validates and unlocks the candidate datastore, sends no
-- get-config and no cancel-commit, and commits only by a confirmed commit with the caller's persist
-- token, or, if the caller asked to finalize, by the confirming commit of that token.
pub execute-LogAllowed :
    (N : Ncclient) (key_digest : Str → Str) (c : Client) (q : Request) (w : World N)
    → LogAllowed N q w
    → LogAllowed N q (execute_confirmed_commit N key_digest c q w).1
execute-LogAllowed N key_digest c q w h =
    Keeps-at _ (execute-Keeps N q (RpcAllowed q) (λ request allowed. allowed) key_digest c) w h

-- ===== src/Netconf/Client.antt =====
-- `NetconfClient` of cli_tool/transport/netconf.py. Its methods are actions on the world of
-- Netconf.Session. Elapsed times are left out. `key_digest` stands for the base64 text of the
-- SHA-256 of a key's bytes.
pub mod Pinning
pub mod Sent
use device_cli_tool.Base.{
  ℕ, String, Bool, true, false, not, ◌&&◌, ◌||◌, Option, none, some, List, [], ◌∷◌, ◌++◌, ◌==◌, ltb,
  if◌then◌else◌, is_empty, is_none, Error, Result, ok, err, value_error, netconf_host_key,
  netconf_capability, raise_if, ◌≡◌, map,
}
use device_cli_tool.Base.Exec.{
  Exec, pure, raise, lift, gets, modify, ◌>>=◌, ◌>>◌, try_finally, try_reraise, ignore_errors,
}
use device_cli_tool.Text.{Str, codes, str_eq, drop_while_end, sort_texts}
use device_cli_tool.Netconf.Model.{
  Seconds, no_number, negative, fraction, infinite, not_a_number, mutation_target,
  missing_mutation_capabilities, missing_persist_capabilities, confirm_timeout_text,
  validate_persist_token, validate_datastore, normalize_fingerprint, CommitArgs,
  confirmed_commit_kwargs, commit_plain, commit_persisted,
}
use device_cli_tool.Netconf.Session.{
  Rpc, Reply, reply_xml, Ncclient, Event, World, call, key_exchanged, credentials_sent, sent,
  connection_closed, session_closed, get, get_config, edit_config, lock, unlock, validate, commit,
  discard_changes, cancel_commit,
}

-- A port below 0 is refused as 0 is. `timeout` is positive, or not.
pub record Client : Type 0 where
  pub host : Str
  pub username : Str
  pub password : Str
  pub port : ℕ
  pub timeout_positive : Bool
  pub allow_unknown_host_key : Bool
  pub expected_host_key_fingerprint : Option Str

pub record OperationResult : Type 0 where
  pub operation : String
  pub xml : Str

pub record ConnectResult : Type 0 where
  pub session_id : Option Str
  pub server_capabilities : List Str
  pub host_key_fingerprint : Str

-- The checks at the head of `_connect`.
unfoldable pub check_client : Client → Result (Unit {0})
check_client c =
    if is_empty c.host
    then err (value_error "host is required")
    else if is_empty c.username
    then err (value_error "username is required")
    else if is_empty c.password
    then err (value_error "password is required")
    else if ltb c.port 1 || ltb 65535 c.port
    then err (value_error "port must be between 1 and 65535")
    else if not c.timeout_positive
    then err (value_error "timeout must be greater than 0")
    else if is_none c.expected_host_key_fingerprint && not c.allow_unknown_host_key
    then err
        (netconf_host_key "NETCONF host-key verification requires expected_host_key_fingerprint")
    else ok tt

module _ (N : Ncclient) where
  unfoldable pub close_if_open : Exec (World N) (Unit {0})
  close_if_open w =
      if N.is_open w.state then call {N = N} connection_closed N.close w else (ok tt, w)

  -- `_close_session`: errors are dropped.
  unfoldable pub close_session : Exec (World N) (Unit {0})
  close_session = ignore_errors (call {N = N} session_closed N.close_session)

  unfoldable pub rpc : Rpc → Exec (World N) Str
  rpc request = do reply ← call {N = N} (sent request) (N.rpc request); pure (reply_xml reply)

  unfoldable pub require_none : List Str → Exec (World N) (Unit {0})
  require_none [] = pure tt
  require_none (name ∷ names) =
      raise (netconf_capability "NETCONF server does not advertise required capabilities")

module _ (N : Ncclient) (key_digest : Str → Str) where
  unfoldable pub key_fingerprint : Str → Str
  key_fingerprint server_key = drop_while_end (λ c. c == b'=') (key_digest server_key)

  unfoldable pub check_against : Str → Result Str → Result (Unit {0})
  check_against actual (err e) = err e
  check_against actual (ok expected) =
      raise_if (not (str_eq actual expected))
        (netconf_host_key "NETCONF server host key does not match the pinned fingerprint")

  -- `_check_fingerprint`, under the test that a fingerprint is expected.
  unfoldable pub check_fingerprint : Option Str → Str → Result (Unit {0})
  check_fingerprint none actual = ok tt
  check_fingerprint (some pin) actual = check_against actual (normalize_fingerprint pin)

  unfoldable pub verify_server_key : Client → Str → Result (Unit {0})
  verify_server_key c server_key =
      check_fingerprint c.expected_host_key_fingerprint (key_fingerprint server_key)

  unfoldable pub fingerprint_of : Option Str → Result Str
  fingerprint_of none =
      err (netconf_host_key "cannot read the NETCONF server host key from this ncclient session")
  fingerprint_of (some key) = ok (key_fingerprint key)

  unfoldable pub server_key_fingerprint : Exec (World N) Str
  server_key_fingerprint w = (fingerprint_of (N.remote_server_key w.state), w)

  unfoldable pub verify_pin : Option Str → Exec (World N) (Unit {0})
  verify_pin none = pure tt
  verify_pin (some pin) = do
    actual ← server_key_fingerprint
    lift (check_fingerprint (some pin) actual)

  unfoldable pub verify_host_key : Client → Exec (World N) (Unit {0})
  verify_host_key c = verify_pin c.expected_host_key_fingerprint

  -- `session.connect` of the pinned session: the hook runs between key exchange and `_auth`.
  unfoldable pub pinned_connect : Client → Exec (World N) (Unit {0})
  pinned_connect c = do
    server_key ← call {N = N} key_exchanged N.key_exchange
    lift (verify_server_key c server_key)
    call {N = N} credentials_sent (N.auth c.username c.password)

  unfoldable pub open_session : Client → Exec (World N) (Unit {0})
  open_session c = try_reraise (pinned_connect c) (close_if_open N)

  unfoldable pub connect : Client → Exec (World N) (Unit {0})
  connect c = do
    lift (check_client c)
    open_session c
    try_reraise (verify_host_key c) (close_session N)

  unfoldable pub connect_test : Client → Exec (World N) ConnectResult
  connect_test c = do
    connect c
    try_finally
        (do
          capabilities ← gets (λ (w : World N). sort_texts (N.server_capabilities w.state))
          session_id ← gets (λ (w : World N). N.session_id w.state)
          fingerprint ← server_key_fingerprint
          pure (record {
            session_id = session_id;
            server_capabilities = capabilities;
            host_key_fingerprint = codes "SHA256:" ++ fingerprint;
          }))
        (close_session N)

  -- `_run`, with the calls that `call` makes on the session.
  unfoldable pub run : Client → String → Exec (World N) Str → Exec (World N) OperationResult
  run c operation action = do
    connect c
    try_finally (do xml ← action; pure (record { operation = operation; xml = xml }))
        (close_session N)

  unfoldable pub get_data : Client → Option Str → Exec (World N) OperationResult
  get_data c filter_xml = run c "get" (rpc N (get filter_xml))

  unfoldable pub get_config_data : Client → Str → Option Str → Exec (World N) OperationResult
  get_config_data c datastore filter_xml = do
    lift (validate_datastore datastore)
    run c "get-config" (rpc N (get_config datastore filter_xml))

  unfoldable pub edit_config_data : Client → Str → Str → Exec (World N) OperationResult
  edit_config_data c datastore config_xml = do
    lift (validate_datastore datastore)
    run c "edit-config" (rpc N (edit_config datastore config_xml))

  unfoldable pub run_persist_step :
      Client → String → Exec (World N) Str → Exec (World N) OperationResult
  run_persist_step c operation action = run c operation (do
    capabilities ← gets (λ (w : World N). N.server_capabilities w.state)
    require_none N (missing_persist_capabilities capabilities)
    action)

  unfoldable pub confirm_persisted_commit : Client → Str → Exec (World N) OperationResult
  confirm_persisted_commit c persist_id = do
    lift (validate_persist_token persist_id)
    run_persist_step c "confirm-commit" (rpc N (commit (commit_persisted persist_id)))

  unfoldable pub cancel_persisted_commit : Client → Str → Exec (World N) OperationResult
  cancel_persisted_commit c persist_id = do
    lift (validate_persist_token persist_id)
    run_persist_step c "cancel-commit" (rpc N (cancel_commit persist_id))

-- ===== src/Netconf/Tests.antt =====
-- A scripted server, runs of the transaction on it, and the theorems at concrete inputs.
use device_cli_tool.Base.{
  ℕ, suc, true, false, Option, none, some, List, [], ◌∷◌, ◌++◌, ◌≡◌, refl, ◌==◌, if◌then◌else◌, ok,
  err, rpc_error, netconf_host_key, is_ok, connection_error,
}
use device_cli_tool.Base.Exec.{◌>>=◌}
use device_cli_tool.Text.{Str, codes}
use device_cli_tool.Netconf.Model.{
  fraction, mutation_target, missing_mutation_capabilities, confirmed_commit_kwargs,
  normalize_fingerprint, capability_name,
}
use device_cli_tool.Netconf.Session.{
  Ncclient, World, sent, key_exchanged, session_closed, connection_closed, lock, unlock,
  edit_config, validate, discard_changes, call, reply_xml,
}
use device_cli_tool.Netconf.Client.{
  Client, connect, check_client, verify_server_key, key_fingerprint, check_fingerprint,
  check_against, require_none, rpc, close_session,
}
use device_cli_tool.Netconf.Client.Pinning.{connect-mismatch}
use device_cli_tool.Netconf.Transaction.{
  Request, Transaction, step, change, missing_for, transact, execute_confirmed_commit,
  locked_change, on_world, set_committed, verify_step, finalize_step, clean_up,
  discard_unless_committed,
}
use device_cli_tool.Netconf.Transaction.Allowed.{LogAllowed, execute-LogAllowed}
use device_cli_tool.Netconf.Transaction.CleanUp.{
  begin, clean_up_events, edit_validate_commit, log-transact,
}

-- A server with all capabilities whose state counts the requests, and which fails at one of them.
abbrev server : ℕ → List Str → Ncclient
server failing caps = record {
  State = ℕ;
  key_exchange = λ n. (ok (codes "key"), n);
  auth = λ user password n. (ok tt, n);
  is_open = λ n. true;
  close = λ n. (ok tt, n);
  close_session = λ n. (err (connection_error "closed"), n);
  server_capabilities = λ n. caps;
  session_id = λ n. none;
  remote_server_key = λ n. some (codes "key");
  rpc = λ request n. (
    if n == failing
        then err (rpc_error "refused")
        else ok (record { xml = some (codes "<ok/>"); text = [] }),
    suc n,
  );
}

abbrev capable : List Str
capable =
    codes "urn:ietf:params:netconf:capability:candidate:1.0"
    ∷ codes "urn:ietf:params:netconf:capability:confirmed-commit:1.1?x=y"
    ∷ []

abbrev start : (failing : ℕ) (caps : List Str) → World (server failing caps)
start failing caps = record { state = 0; log = [] }

abbrev request : Request
request = record {
  config_xml = codes "<config/>";
  verify_filter_xml = none;
  confirm_timeout = fraction 30 0;
  finalize = false;
  persist = none;
}

abbrev client : Option Str → Client
client pin = record {
  host = codes "192.0.2.10";
  username = codes "admin";
  password = codes "secret";
  port = 830;
  timeout_positive = true;
  allow_unknown_host_key = false;
  expected_host_key_fingerprint = pin;
}

abbrev digest : Str → Str
digest key = key ++ codes "="

validate_fails :
    (transact (server 2 capable) request (codes "30") (start 2 capable)).1.log
    ≡ sent (lock mutation_target)
      ∷ sent (edit_config mutation_target (codes "<config/>"))
      ∷ sent (validate mutation_target)
      ∷ sent discard_changes
      ∷ sent (unlock mutation_target)
      ∷ session_closed
      ∷ []
unfolding transact locked_change missing_for missing_mutation_capabilities on_world require_none
    step rpc call reply_xml change set_committed verify_step finalize_step clean_up
    discard_unless_committed close_session confirmed_commit_kwargs capability_name ◌>>=◌
validate_fails = refl

capable_lem : (k : ℕ) → missing_for (server k capable) none capable ≡ []
unfolding missing_for missing_mutation_capabilities capability_name
capable_lem k = refl

incapable_lem :
    missing_for (server 2 []) none [] ≡ codes ":candidate" ∷ codes ":confirmed-commit" ∷ []
unfolding missing_for missing_mutation_capabilities
incapable_lem = refl

granted :
    (step
      (server 2 capable)
      "lock"
      (lock mutation_target)
      (begin (server 2 capable) (start 2 capable))).0
    ≡ ok tt
unfolding step rpc call reply_xml ◌>>=◌
granted = refl

refused :
    (step
      (server 0 capable)
      "lock"
      (lock mutation_target)
      (begin (server 0 capable) (start 0 capable))).0
    ≡ err (rpc_error "refused")
unfolding step rpc call reply_xml ◌>>=◌
refused = refl

abbrev locked : Transaction (server 2 capable)
locked =
    (step (server 2 capable) "lock" (lock mutation_target)
      (begin (server 2 capable) (start 2 capable))).1

log-transact_example :
    (transact (server 2 capable) request (codes "30") (start 2 capable)).1.log
    ≡ (change (server 2 capable) request (codes "30") locked).1.world.log
      ++ (clean_up_events
            (is_ok (edit_validate_commit (server 2 capable) request (codes "30") locked).0)
          ++ (session_closed ∷ []))
log-transact_example =
    log-transact (server 2 capable) request (codes "30") (start 2 capable) (capable_lem 2) granted

abbrev other_pin : Client
other_pin = client (some (codes "SHA256:other="))

checked : check_client other_pin ≡ ok tt
unfolding check_client
checked = refl

mismatch :
    verify_server_key (server 0 []) digest other_pin (codes "key")
    ≡ err (netconf_host_key "NETCONF server host key does not match the pinned fingerprint")
unfolding verify_server_key check_fingerprint check_against key_fingerprint normalize_fingerprint
mismatch = refl

connect-mismatch_example :
    ((connect (server 0 []) digest other_pin (start 0 [])).1.log
      ≡ key_exchanged ∷ connection_closed ∷ [])
    × (is_ok (connect (server 0 []) digest other_pin (start 0 [])).0 ≡ false)
connect-mismatch_example =
    connect-mismatch (server 0 []) digest other_pin (start 0 []) (codes "key") checked refl mismatch

normal : normalize_fingerprint (codes "SHA256:other=") ≡ ok (codes "other")
unfolding normalize_fingerprint
normal = refl

execute-LogAllowed_example :
    LogAllowed
      (server 2 capable)
      request
      (execute_confirmed_commit
        (server 2 capable)
        digest
        (client (some (codes "SHA256:key")))
        request
        (start 2 capable)).1
execute-LogAllowed_example =
    execute-LogAllowed (server 2 capable) digest (client (some (codes "SHA256:key"))) request
      (start 2 capable) tt

-- ===== src/Netconf/Client/Sent.antt =====
-- Which requests of the methods of `NetconfClient` reach the server, by a predicate on requests.
use device_cli_tool.Base.{
  String, Bool, true, false, Option, none, some, [], ◌∷◌, if◌then◌else◌, ok, All, All-append,
}
use device_cli_tool.Base.Exec.{Exec}
use device_cli_tool.Base.Exec.Keeps.{
  Keeps, Keeps-at, Keeps-of, keeps_rules, Keeps-pure, Keeps-lift, Keeps-gets, Keeps-bind,
  Keeps-ignore_errors, Keeps-try_finally, Keeps-try_reraise,
}
use device_cli_tool.Text.{Str}
use device_cli_tool.Netconf.Session.{
  Rpc, Ncclient, Event, World, call, key_exchanged, credentials_sent, sent, connection_closed,
  session_closed, get, get_config,
}
use device_cli_tool.Netconf.Client.{
  Client, connect, connect_test, close_session, close_if_open, open_session, pinned_connect,
  verify_pin, verify_host_key, server_key_fingerprint, rpc, run, get_data, get_config_data,
}

module _ (Allowed : Rpc → Type 0) where
  abbrev pub EventOf : Event → Type 0
  EventOf (sent request) = Allowed request
  EventOf _ = Unit

  abbrev pub LogOf : {N : Ncclient} → World N → Type 0
  LogOf w = All EventOf w.log

module _ (N : Ncclient) (Allowed : Rpc → Type 0) where
  pub call-Keeps :
      {A : Type 0} (e : Event) (action : Exec N.State A)
      → EventOf Allowed e
      → Keeps (LogOf Allowed) (call {N = N} e action)
  unfolding call
  call-Keeps e action allowed =
      Keeps-of _ λ w h. All-append (EventOf Allowed) w.log (e ∷ []) h (allowed, tt)

  pub rpc-Keeps : (request : Rpc) → Allowed request → Keeps (LogOf Allowed) (rpc N request)
  unfolding rpc
  rpc-Keeps request allowed = search (keeps_rules, call-Keeps)

  pub close_session-Keeps : Keeps (LogOf Allowed) (close_session N)
  unfolding close_session
  close_session-Keeps = Keeps-ignore_errors _ (call-Keeps session_closed _ tt)

  module _ (key_digest : Str → Str) where
    closed_or_not :
        (b : Bool) (w : World N)
        → LogOf Allowed w
        → LogOf Allowed (if b then call {N = N} connection_closed N.close w else (ok tt, w)).1
    closed_or_not true w h = Keeps-at _ (call-Keeps connection_closed N.close tt) w h
    closed_or_not false w h = h

    close_if_open-Keeps : Keeps (LogOf Allowed) (close_if_open N)
    unfolding close_if_open
    close_if_open-Keeps = Keeps-of _ λ w h. closed_or_not (N.is_open w.state) w h

    open_session-Keeps : (c : Client) → Keeps (LogOf Allowed) (open_session N key_digest c)
    unfolding open_session pinned_connect
    open_session-Keeps c =
        Keeps-try_reraise _ _
          (Keeps-bind _ _ (call-Keeps key_exchanged _ tt)
            λ server_key. Keeps-bind _ _ (Keeps-lift _) λ _. call-Keeps credentials_sent _ tt)
          close_if_open-Keeps

    fingerprint-Keeps : Keeps (LogOf Allowed) (server_key_fingerprint N key_digest)
    unfolding server_key_fingerprint
    fingerprint-Keeps = Keeps-of _ (λ w h. h)

    verify_pin-Keeps : (pin : Option Str) → Keeps (LogOf Allowed) (verify_pin N key_digest pin)
    unfolding verify_pin
    verify_pin-Keeps none = Keeps-pure tt
    verify_pin-Keeps (some pin) = Keeps-bind _ _ fingerprint-Keeps λ actual. Keeps-lift _

    pub connect-Keeps : (c : Client) → Keeps (LogOf Allowed) (connect N key_digest c)
    unfolding connect verify_host_key
    connect-Keeps c = Keeps-bind _ _ (Keeps-lift _) λ _. Keeps-bind _ _ (open_session-Keeps c) λ _.
        Keeps-try_reraise _ _ (verify_pin-Keeps c.expected_host_key_fingerprint) close_session-Keeps

    pub connect_test-Keeps : (c : Client) → Keeps (LogOf Allowed) (connect_test N key_digest c)
    unfolding connect_test
    connect_test-Keeps c = Keeps-bind _ _ (connect-Keeps c) λ _.
        Keeps-try_finally _ _
          (Keeps-bind _ _ (Keeps-gets _) λ capabilities.
            Keeps-bind _ _ (Keeps-gets _)
              λ session_id. Keeps-bind _ _ fingerprint-Keeps λ fingerprint. Keeps-pure _)
          close_session-Keeps

    run-Keeps :
        (c : Client) (operation : String) (action : Exec (World N) Str)
        → Keeps (LogOf Allowed) action
        → Keeps (LogOf Allowed) (run N key_digest c operation action)
    unfolding run
    run-Keeps c operation action kept =
        Keeps-bind _ _ (connect-Keeps c)
          λ _. Keeps-try_finally _ _ (Keeps-bind _ _ kept λ xml. Keeps-pure _) close_session-Keeps

    pub get_data-Keeps :
        (c : Client) (filter : Option Str)
        → Allowed (get filter)
        → Keeps (LogOf Allowed) (get_data N key_digest c filter)
    unfolding get_data
    get_data-Keeps c filter allowed = run-Keeps c "get" _ (rpc-Keeps (get filter) allowed)

    pub get_config_data-Keeps :
        (c : Client) (datastore : Str) (filter : Option Str)
        → Allowed (get_config datastore filter)
        → Keeps (LogOf Allowed) (get_config_data N key_digest c datastore filter)
    unfolding get_config_data
    get_config_data-Keeps c datastore filter allowed =
        Keeps-bind _ _ (Keeps-lift _)
          λ _. run-Keeps c "get-config" _ (rpc-Keeps (get_config datastore filter) allowed)

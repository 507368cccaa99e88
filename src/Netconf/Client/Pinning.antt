-- ===== src/Netconf/Client/Pinning.antt =====
-- Host-key pinning: the password goes only to a server whose key fits the pin.
use device_cli_tool.Base.{
  false, none, some, [], ◌∷◌, ◌++◌, ◌≡◌, ◌↔◌, arith, append-nil, append_assoc, if◌then◌else◌, Error,
  ok, err, is_ok,
}
use device_cli_tool.Base.Exec.{◌>>=◌}
use device_cli_tool.Text.{Str}
use device_cli_tool.Text.Laws.{str_eq_iff}
use device_cli_tool.Netconf.Model.{normalize_fingerprint}
use device_cli_tool.Netconf.Session.{Ncclient, World, call, key_exchanged, connection_closed}
use device_cli_tool.Netconf.Client.{
  Client, check_client, key_fingerprint, check_against, check_fingerprint, verify_server_key,
  close_if_open, pinned_connect, open_session, connect,
}

module _ (N : Ncclient) (key_digest : Str → Str) where
  -- A pinned key is accepted exactly if its fingerprint is the one of the pin.
  pub verify_server_key_iff :
      (c : Client) (key pin body : Str)
      → c.expected_host_key_fingerprint ≡ some pin
      → normalize_fingerprint pin ≡ ok body
      → (verify_server_key N key_digest c key ≡ ok tt) ↔ (key_fingerprint N key_digest key ≡ body)
  unfolding verify_server_key check_fingerprint check_against
  verify_server_key_iff c key pin body pinned normal =
      rw pinned (rw normal (ground (arith, str_eq_iff (key_fingerprint N key_digest key) body)))

  -- Without a pin and without the explicit opt-in nothing is opened, and the call fails.
  pub connect-unpinned :
      (c : Client) (w : World N)
      → c.expected_host_key_fingerprint ≡ none
      → c.allow_unknown_host_key ≡ false
      → ((connect N key_digest c w).1 ≡ w) × (is_ok (connect N key_digest c w).0 ≡ false)
  unfolding connect check_client ◌>>=◌
  connect-unpinned c w unpinned strict = ground arith

  close_if_open_lem :
      (w : World N)
      → (close_if_open N w).1.log
        ≡ w.log ++ (if N.is_open w.state then connection_closed ∷ [] else [])
  unfolding close_if_open call
  close_if_open_lem w = ground (arith, append-nil w.log)

  -- If the server's key does not fit the pin, the connection ends after the key exchange: the
  -- credentials are not sent, and the call fails.
  pub connect-mismatch :
      (c : Client) (w : World N) (key : Str) {e : Error}
      → check_client c ≡ ok tt
      → (N.key_exchange w.state).0 ≡ ok key
      → verify_server_key N key_digest c key ≡ err e
      → ((connect N key_digest c w).1.log
          ≡ w.log
            ++ (key_exchanged
                ∷ (if N.is_open (N.key_exchange w.state).1 then connection_closed ∷ [] else [])))
        × (is_ok (connect N key_digest c w).0 ≡ false)
  unfolding connect open_session pinned_connect call ◌>>=◌
  connect-mismatch c w key checked exchanged mismatch =
      let s = (N.key_exchange w.state).1 in
      let w1 : World N = record { state = s; log = w.log ++ (key_exchanged ∷ []) } in
      ground (
        arith,
        close_if_open_lem w1,
        append_assoc w.log (key_exchanged ∷ [])
            (if N.is_open s then connection_closed ∷ [] else []),
      )

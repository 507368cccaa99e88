-- ===== src/Ssh/Session/Closed.antt =====
-- What `SshCliSession.close` leaves.
use device_cli_tool.Base.{
  ℕ, zero, suc, Bool, true, false, not, ◌&&◌, ◌≡◌, refl, ap, ◌∙◌, Result, ok, err, Error, is_ok,
  Bool-cases, inl, inr, [],
}
use device_cli_tool.Base.Exec.{Exec, continue, after_finally, modify, gets, ◌>>=◌}
use device_cli_tool.Base.Exec.Keeps.{Keeps, Keeps-at, Keeps-of, keeps_rules}
use device_cli_tool.Text.{Str}
use device_cli_tool.Ssh.Session.{
  SshClient, Session, on_ssh, available_round, available_rounds, read_available, confirm_logout,
  log_out, say_exit, close_shell, close_transport, close_client, when, close,
}

module _ (K : SshClient) where
  -- What `close` leaves of the session `w`.
  pub record Closes (logout : Bool) (w : Session K) : Type 0 where
    pub channel_gone : (close K logout w).1.channel ≡ false
    pub client_gone : is_ok (close K logout w).0 ≡ true → (close K logout w).1.client ≡ false
    pub client_kept :
        (e : Error)
        → w.channel ≡ true
        → (say_exit K logout w).0 ≡ err e
        → ((close K logout w).0 ≡ err e) × ((close K logout w).1.client ≡ w.client)

  -- The logout does not touch the client.
  module _ (b : Bool) where
    abbrev SameClient : Session K → Type 0
    SameClient w = w.client ≡ b

    on_ssh-Keeps : {A : Type 0} (action : Exec K.State A) → Keeps SameClient (on_ssh K action)
    unfolding on_ssh
    on_ssh-Keeps action = Keeps-of (on_ssh K action) (λ w h. h)

    round-Keeps :
        (ready : Bool) (more : ℕ → Str → Exec (Session K) Str) (idle : Exec (Session K) Str)
        → ((n : ℕ) (text : Str) → Keeps SameClient (more n text))
        → Keeps SameClient idle
        → Keeps SameClient (available_round K ready more idle)
    round-Keeps false more idle hm hi = hi
    round-Keeps true more idle hm hi = search (keeps_rules, on_ssh-Keeps, hm)

    rounds-Keeps :
        (left idle : ℕ) (chunks : Str) → Keeps SameClient (available_rounds K left idle chunks)
    unfolding available_rounds
    rounds-Keeps zero idle chunks = search keeps_rules
    rounds-Keeps (suc left) zero chunks = search keeps_rules
    rounds-Keeps (suc left) (suc idle) chunks =
        search (keeps_rules, on_ssh-Keeps, round-Keeps, rounds-Keeps left)

    read-Keeps : Keeps SameClient (read_available K)
    unfolding read_available
    read-Keeps = Keeps-of (read_available K) (λ w h.
        let rounds = K.available_rounds w.remote in
        let idle = K.idle_rounds w.remote in
        Keeps-at (available_rounds K rounds idle []) (rounds-Keeps rounds idle []) w h)

    confirm-Keeps : (asked : Bool) → Keeps SameClient (confirm_logout K asked)
    confirm-Keeps true = search (keeps_rules, on_ssh-Keeps, read-Keeps)
    confirm-Keeps false = search keeps_rules

    log_out-Keeps : Keeps SameClient (log_out K)
    unfolding log_out
    log_out-Keeps = search (keeps_rules, on_ssh-Keeps, read-Keeps, confirm-Keeps)

    say_exit-same :
        (logout : Bool) (w : Session K) → SameClient w → SameClient (say_exit K logout w).1
    say_exit-same logout w h = elim (Bool-cases (logout && not (K.is_closed w.remote))) [
      | inl e ↦ rw e (Keeps-at (log_out K) log_out-Keeps w h)
      | inr e ↦ rw e h
    ]

  -- Closing the client.
  abbrev drop_client : Session K → Session K
  drop_client w = record w { client = false }

  dropped_lem :
      (q : Result (Unit {0})) (w : Session K)
      → is_ok (continue q (λ _. modify drop_client) w).0 ≡ true
      → (continue q (λ _. modify drop_client) w).1.client ≡ false
  unfolding ◌>>=◌
  dropped_lem (ok u) w h = refl
  dropped_lem (err e) w h = absurd cc

  transport_lem :
      (r : Result (Unit {0})) (w : Session K)
      → is_ok (continue r (λ _. on_ssh K K.close_client >>= λ _. modify drop_client) w).0 ≡ true
      → (continue r (λ _. on_ssh K K.close_client >>= λ _. modify drop_client) w).1.client ≡ false
  unfolding on_ssh ◌>>=◌
  transport_lem (ok u) w h =
      let (q, s) = K.close_client w.remote in dropped_lem q (record w { remote = s }) h
  transport_lem (err e) w h = absurd cc

  client_lem :
      (w : Session K) → is_ok (close_client K w).0 ≡ true → (close_client K w).1.client ≡ false
  unfolding close_client ◌>>=◌
  client_lem w h = let (r, w') = close_transport K w in transport_lem r w' h

  abbrev NoChannel : Session K → Type 0
  NoChannel w = w.channel ≡ false

  ssh-Keeps : {A : Type 0} (action : Exec K.State A) → Keeps NoChannel (on_ssh K action)
  unfolding on_ssh
  ssh-Keeps action = Keeps-of (on_ssh K action) (λ w h. h)

  transport-Keeps : Keeps NoChannel (close_transport K)
  transport-Keeps = Keeps-of (close_transport K) (λ w h.
      elim (Bool-cases (K.has_transport w.remote)) [
        | inl e ↦ rw e (Keeps-at (on_ssh K K.close_transport) (ssh-Keeps K.close_transport) w h)
        | inr e ↦ rw e h
      ])

  drop-Keeps : Keeps NoChannel (modify drop_client)
  unfolding ◌>>=◌
  drop-Keeps = Keeps-of (modify drop_client) (λ w h. h)

  close_client-Keeps : Keeps NoChannel (close_client K)
  unfolding close_client
  close_client-Keeps = search (keeps_rules, ssh-Keeps, transport-Keeps, drop-Keeps)

  -- What `close` does behind the channel, from a session without one.
  abbrev client_part : Exec (Session K) (Unit {0})
  client_part = gets (λ (w : Session K). w.client) >>= λ b. when K b (close_client K)

  part_at :
      (b : Bool) (w : Session K)
      → w.client ≡ b
      → NoChannel w
      → NoChannel (when K b (close_client K) w).1
        × (is_ok (when K b (close_client K) w).0 ≡ true
            → (when K b (close_client K) w).1.client ≡ false)
  unfolding ◌>>=◌
  part_at true w hb h = (Keeps-at (close_client K) close_client-Keeps w h, client_lem w)
  part_at false w hb h = (h, λ _. hb)

  record Ended (r : Result (Unit {0})) (w : Session K) (end : Result (Unit {0}) × Session K)
      : Type 0 where
    channel_gone : NoChannel end.1
    client_gone : is_ok end.0 ≡ true → end.1.client ≡ false
    raised : (e : Error) → r ≡ err e → (end.0 ≡ err e) × (end.1.client ≡ w.client)

  part_lem :
      (r : Result (Unit {0})) (w : Session K)
      → NoChannel w
      → Ended r w (continue r (λ _. client_part) w)
  unfolding ◌>>=◌
  part_lem (ok u) w h =
      let (gone, dropped) = part_at w.client w refl h in
      record { channel_gone = gone; client_gone = dropped; raised = λ e x. absurd cc }
  part_lem (err e) w h = record {
    channel_gone = h;
    client_gone = λ x. absurd cc;
    raised = λ e' x. (x, refl);
  }

  module _ (closes : (s : K.State) → (K.close_channel s).0 ≡ ok tt) (logout : Bool)
      (w : Session K) where
    shut_lem :
        (q : Result (Unit {0})) (v : Session K)
        → q ≡ ok tt
        → continue q (λ _. modify (λ (v : Session K). record v { channel = false })) v
          ≡ (ok tt, record v { channel = false })
    unfolding ◌>>=◌
    shut_lem (ok u) v h = refl
    shut_lem (err e) v h = absurd cc

    -- The session behind the finally block.
    abbrev shut : Session K
    shut =
        let w' = (say_exit K logout w).1 in
        record w' { remote = (K.close_channel w'.remote).1; channel = false }

    close_shell_lem : close_shell K logout w ≡ ((say_exit K logout w).0, shut)
    unfolding close_shell on_ssh ◌>>=◌
    close_shell_lem =
        let (r, w') = say_exit K logout w in
        let (q, s) = K.close_channel w'.remote in
        ap (after_finally r) (shut_lem q (record w' { remote = s }) (closes w'.remote))

    -- The parts of `close` from the answer to whether there is a channel.
    parts : Bool → Result (Unit {0}) × Session K
    parts b = let (r, v) = when K b (close_shell K logout) w in continue r (λ _. client_part) v

    close_lem : close K logout w ≡ parts w.channel
    unfolding close parts ◌>>=◌
    close_lem = refl

    open_lem : parts true ≡ continue (say_exit K logout w).0 (λ _. client_part) shut
    unfolding parts ◌>>=◌
    open_lem =
        ap (λ (q : Result (Unit {0}) × Session K). continue q.0 (λ _. client_part) q.1)
          close_shell_lem

    none_lem : parts false ≡ continue (ok tt) (λ _. client_part) w
    unfolding parts ◌>>=◌
    none_lem = refl

    Closes-of :
        (r : Result (Unit {0})) (v : Session K)
        → NoChannel v
        → close K logout w ≡ continue r (λ _. client_part) v
        → ((e : Error)
            → w.channel ≡ true
            → (say_exit K logout w).0 ≡ err e
            → (r ≡ err e) × (v.client ≡ w.client))
        → Closes logout w
    Closes-of r v h same kept =
        let ended = part_lem r v h in
        record {
          channel_gone = rw same (ended.channel_gone);
          client_gone = rw same (ended.client_gone);
          client_kept = λ e present raises.
              let (raised, client) = kept e present raises in
              let (result, rest) = ended.raised e raised in rw same (result, rest ∙ client);
        }

    Closes-at : (b : Bool) → w.channel ≡ b → Closes logout w
    Closes-at true h =
        Closes-of (say_exit K logout w).0 shut refl (close_lem ∙ (ap parts h ∙ open_lem))
          (λ e _ raises. (raises, say_exit-same w.client logout w refl))
    Closes-at false h =
        Closes-of (ok tt) w h (close_lem ∙ (ap parts h ∙ none_lem)) (λ e present _. absurd cc)

-- Where closing the channel does not raise, `close` leaves a session without a channel, whatever the device
-- does. A close that returns leaves it without a client too. Where the logout raises, `close` raises the
-- same error, and the client is not closed: the session still has it.
pub close-Closes :
    (K : SshClient) (logout : Bool) (w : Session K)
    → ((s : K.State) → (K.close_channel s).0 ≡ ok tt)
    → Closes K logout w
close-Closes K logout w closes = Closes-at K closes logout w w.channel refl

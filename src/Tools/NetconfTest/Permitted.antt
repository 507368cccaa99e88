-- ===== src/Tools/NetconfTest/Permitted.antt =====
-- What a run of tools/cli_tool_netconf_test.py sends to the device.
use device_cli_tool.Base.{
  ◌≢◌, [], ◌∷◌, Bool, true, false, not, Option, none, some, List, ◌≡◌, refl, ◌⊎◌, inl, inr,
  if◌then◌else◌, Error, value_error, permission_error, Result, ok,
}
use device_cli_tool.Base.Exec.{Exec}
use device_cli_tool.Base.Exec.Keeps.{
  Keeps, Keeps-at, Keeps-of, Keeps-bind, Keeps-lift_bind, Keeps-pure, Keeps-raise, Keeps-lift,
  Keeps-try_except,
}
use device_cli_tool.Text.{Str, codes}
use device_cli_tool.Safety.IpAddress.{ip_address}
use device_cli_tool.Netconf.Session.{
  Rpc, Ncclient, World, get, get_config, edit_config, lock, unlock, validate, commit,
  discard_changes, cancel_commit,
}
use device_cli_tool.Netconf.Client.{Client}
use device_cli_tool.Netconf.Client.Sent.{
  LogOf, connect_test-Keeps, get_data-Keeps, get_config_data-Keeps,
}
use device_cli_tool.Netconf.Transaction.Allowed.{RpcAllowed, execute-Keeps}
use device_cli_tool.Workflows.NetconfEdit.{NetconfEditPlan}
use device_cli_tool.Workflows.NetconfEdit.Gate.{live-authorized}
use device_cli_tool.Tools.NetconfTest.{
  Operation, only_connect, read_state, read_config, edit, Args, is_edit,
}
use device_cli_tool.Tools.NetconfTest.Run.{
  Outside, Report, or_empty, datastore_of, client_for, request_for, reported, read_call,
  refused_code, run_readonly, execute_live_edit_config, dry_run, live, run_edit_config, run, main,
}

-- The datastore that was asked for; an empty name asks for none.
abbrev pub IsAsked : Option Str → Str → Type 0
IsAsked none source = source ≡ codes "running"
IsAsked (some name) source =
    ((name ≢ []) × (source ≡ name)) ⊎ ((name ≡ []) × (source ≡ codes "running"))

datastore_of-IsAsked : (datastore : Option Str) → IsAsked datastore (datastore_of datastore)
datastore_of-IsAsked none = refl
datastore_of-IsAsked (some []) = inr (refl, refl)
datastore_of-IsAsked (some (c ∷ s)) = inl (λ e. cc, refl)

module _ (out : Outside) (a : Args) where
  -- A live edit of the text in the file, with both confirmations.
  pub record Authorized (config_xml : Str) : Type 0 where
    pub edits : is_edit a.operation ≡ true
    pub asked : a.run_mutating ≡ true
    pub node : or_empty a.confirm_node ≡ or_empty a.node_key
    pub host : ip_address out.ipv6 a.host ≡ some (or_empty a.confirm_host)
    pub config : out.read_text (or_empty a.edit_config_file) ≡ ok config_xml

  abbrev Edits : Rpc → Type 0
  Edits request =
      (config_xml : Str) × Authorized config_xml
      × RpcAllowed (request_for a config_xml none) request

  -- A run that does not edit reads; of the rest, each request is one of an authorized transaction.
  abbrev pub Permitted : Rpc → Type 0
  Permitted (get filter) = (is_edit a.operation ≡ false) ⊎ Edits (get filter)
  Permitted (get_config source filter) = (is_edit a.operation ≡ false) × IsAsked a.datastore source
  Permitted request = Edits request

  -- The allowed requests do not depend on the filter of the transaction.
  allowed→permitted :
      (config_xml : Str) (verify : Option Str)
      → Authorized config_xml
      → (request : Rpc) → RpcAllowed (request_for a config_xml verify) request
      → Permitted request
  allowed→permitted config_xml verify authorized (get filter) h = inr (config_xml, authorized, h)
  allowed→permitted config_xml verify authorized (get_config source filter) h = absurd h
  allowed→permitted config_xml verify authorized (edit_config t x) h = (config_xml, authorized, h)
  allowed→permitted config_xml verify authorized (lock t) h = (config_xml, authorized, h)
  allowed→permitted config_xml verify authorized (unlock t) h = (config_xml, authorized, h)
  allowed→permitted config_xml verify authorized (validate t) h = (config_xml, authorized, h)
  allowed→permitted config_xml verify authorized (commit args) h = (config_xml, authorized, h)
  allowed→permitted config_xml verify authorized discard_changes h = (config_xml, authorized, h)
  allowed→permitted config_xml verify authorized (cancel_commit id) h = absurd h

  module _ (N : Ncclient) (key_digest : Str → Str) where
    abbrev Logged : World N → Type 0
    Logged w = LogOf Permitted w

    reported-Keeps :
        (report : Result (List Str) → Report) (action : Exec (World N) (List Str))
        → Keeps Logged action
        → Keeps Logged (reported report action)
    unfolding reported
    reported-Keeps report action kept = Keeps-of _ λ w h. Keeps-at action kept w h

    refused_code-Keeps : (e : Error) → Keeps Logged (refused_code e)
    refused_code-Keeps (permission_error m) = Keeps-pure 2
    refused_code-Keeps (value_error m) = Keeps-pure 2
    refused_code-Keeps e = Keeps-raise e

    read_call-Keeps :
        (c : Client) (filter : Option Str) (operation : Operation)
        → is_edit a.operation ≡ false
        → Keeps Logged (read_call out N key_digest a c filter operation)
    read_call-Keeps c filter only_connect reads =
        Keeps-bind _ _ (connect_test-Keeps N Permitted key_digest c) (λ _. Keeps-pure _)
    read_call-Keeps c filter read_state reads =
        Keeps-bind _ _ (get_data-Keeps N Permitted key_digest c filter (inl reads))
          (λ _. Keeps-pure _)
    read_call-Keeps c filter read_config reads =
        Keeps-bind _ _
          (get_config_data-Keeps N Permitted key_digest c (datastore_of a.datastore) filter
            (reads, datastore_of-IsAsked a.datastore))
          (λ _. Keeps-pure _)
    read_call-Keeps c filter edit reads =
        Keeps-bind _ _
          (get_config_data-Keeps N Permitted key_digest c (datastore_of a.datastore) filter
            (reads, datastore_of-IsAsked a.datastore))
          (λ _. Keeps-pure _)

    run_readonly-Keeps :
        is_edit a.operation ≡ false → Keeps Logged (run_readonly out N key_digest a)
    unfolding run_readonly
    run_readonly-Keeps reads = Keeps-bind _ _ (Keeps-lift _) λ password.
        Keeps-bind _ _ (Keeps-lift _) λ filter.
          reported-Keeps _ _ (read_call-Keeps (client_for a password) filter a.operation reads)

    execute-live-Keeps :
        (config_xml : Str)
        → Authorized config_xml
        → Keeps Logged (execute_live_edit_config out N key_digest a config_xml)
    unfolding execute_live_edit_config
    execute-live-Keeps config_xml authorized = Keeps-bind _ _ (Keeps-lift _) λ password.
        Keeps-bind _ _ (Keeps-lift _) λ verify. reported-Keeps _ _ (
          Keeps-bind _ _
            (execute-Keeps N (request_for a config_xml verify) Permitted
              (allowed→permitted config_xml verify authorized) key_digest (client_for a password))
            (λ _. Keeps-pure _))

    live-Keeps :
        (config_xml : Str)
        → is_edit a.operation ≡ true
        → out.read_text (or_empty a.edit_config_file) ≡ ok config_xml
        → Keeps Logged (live out N key_digest a config_xml)
    unfolding live
    live-Keeps config_xml edits read = Keeps-lift_bind _ _ λ u opened.
        let (asked, node, host) =
          live-authorized out.ipv6 (or_empty a.node_key) a.host (or_empty a.confirm_node)
            (or_empty a.confirm_host) a.run_mutating opened in
        execute-live-Keeps config_xml
          (record { edits = edits; asked = asked; node = node; host = host; config = read })

    dry_run-Keeps : (plan : NetconfEditPlan) → Keeps Logged (dry_run out N key_digest a plan)
    unfolding dry_run
    dry_run-Keeps plan = Keeps-bind _ _ (Keeps-lift _) (λ _. Keeps-pure _)

    dry_or_live :
        (b : Bool) (m n : Exec (World N) Report)
        → (b ≡ true → Keeps Logged m)
        → (b ≡ false → Keeps Logged n)
        → Keeps Logged (if b then m else n)
    dry_or_live true m n hm hn = hm refl
    dry_or_live false m n hm hn = hn refl

    run_edit_config-Keeps :
        is_edit a.operation ≡ true → Keeps Logged (run_edit_config out N key_digest a)
    unfolding run_edit_config
    run_edit_config-Keeps edits = Keeps-lift_bind _ _ λ config_xml read.
        Keeps-bind _ _ (Keeps-lift _) λ plan.
          dry_or_live (not a.run_mutating) _ _ (λ _. dry_run-Keeps plan)
            (λ _. live-Keeps config_xml edits read)

    run-Keeps : Keeps Logged (run out N key_digest a)
    unfolding run
    run-Keeps =
        Keeps-bind _ _ (Keeps-lift _)
          λ _. dry_or_live (is_edit a.operation) _ _ run_edit_config-Keeps run_readonly-Keeps

    main-Keeps : Keeps Logged (main out N key_digest a)
    unfolding main
    main-Keeps =
        Keeps-try_except _ _ (Keeps-bind _ _ run-Keeps (λ _. Keeps-pure _)) refused_code-Keeps

-- Whatever the server answers, and wherever it fails, a run of the tool that is not an edit sends no
-- request but a get, or a get-config of the datastore that was asked for (running by default). A
-- request of a run that is an edit is one that the confirmed-commit transaction of the text in the
-- given file may send, and then --run-mutating was given, the node was confirmed as it was given, and
-- the host in its normal form. The log of the session satisfies this at the end if it did before.
pub main-Permitted :
    (out : Outside) (a : Args) (N : Ncclient) (key_digest : Str → Str) (w : World N)
    → LogOf (Permitted out a) w
    → LogOf (Permitted out a) (main out N key_digest a w).1
main-Permitted out a N key_digest w h = Keeps-at _ (main-Keeps out a N key_digest) w h

-- ===== src/Tools/NetconfTest/Validated.antt =====
-- What the arguments are once they are validated.
use device_cli_tool.Base.{
  true, false, ◌≡◌, refl, sym, arith, Option, none, some, is_none, ok, is_ok,
}
use device_cli_tool.Netconf.Model.{
  Seconds, no_number, negative, fraction, infinite, not_a_number, confirm_timeout_text,
}
use device_cli_tool.Tools.NetconfTest.{
  Args, given, is_edit, edit_option, validate_timeout, validate_edit, validate_args,
}

is_none→eq : {A : Type 0} (o : Option A) → is_none o ≡ true → o ≡ none
is_none→eq none h = refl
is_none→eq (some value) h = absurd (ground arith)

-- Valid arguments name both confirmations and the file for an edit, and they ask for a mutation, and for
-- its options, only with edit-config; the options of a live edit need --run-mutating.
validated-edit :
    (a : Args)
    → validate_args a ≡ ok tt
    → (is_edit a.operation ≡ false → edit_option a ≡ false)
      × (is_edit a.operation ≡ true
          → (given a.node_key ≡ true)
            × (given a.confirm_node ≡ true)
            × (given a.confirm_host ≡ true)
            × (given a.edit_config_file ≡ true)
            × (a.datastore ≡ none)
            × (a.run_mutating ≡ false → a.finalize_commit ≡ false))
unfolding validate_args validate_edit
validated-edit a h = (
  λ e. ground (arith, h, e),
  λ e.
      let v : validate_edit a ≡ ok tt = ground (arith, h, e) in
      let no_datastore : is_none a.datastore ≡ true = ground (arith, h, e) in
      (
        ground (arith, v),
        ground (arith, v),
        ground (arith, v),
        ground (arith, v),
        is_none→eq a.datastore no_datastore,
        λ m. ground (arith, v, m),
      ),
)

timeout_lem :
    (t : Seconds) → validate_timeout (some t) ≡ ok tt → is_ok (confirm_timeout_text t) ≡ true
unfolding validate_timeout confirm_timeout_text
timeout_lem no_number h = cc
timeout_lem negative h = cc
timeout_lem infinite h = cc
timeout_lem not_a_number h = cc
timeout_lem (fraction n d) h = ground (arith, h)

-- A confirm timeout that the tool lets pass is one that the client of a confirmed commit accepts.
pub validated-timeout :
    (a : Args) (t : Seconds)
    → validate_args a ≡ ok tt
    → is_edit a.operation ≡ true
    → a.confirm_timeout_seconds ≡ some t
    → is_ok (confirm_timeout_text t) ≡ true
unfolding validate_args validate_edit
validated-timeout a t h e timeout =
    let v : validate_timeout a.confirm_timeout_seconds ≡ ok tt = ground (arith, h, e) in
    timeout_lem t (rw (sym timeout) v)

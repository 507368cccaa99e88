-- ===== src/Tools/Tests.antt =====
-- Runs of the NETCONF tool at concrete arguments, on a server that accepts each request.
use device_cli_tool.Base.{
  ℕ, true, false, ◌≡◌, refl, none, some, [], ◌∷◌, ok, err, file_not_found, if◌then◌else◌,
}
use device_cli_tool.Text.{Str, codes, str_eq, is_space, decimal}
use device_cli_tool.Netconf.Model.{fraction}
use device_cli_tool.Netconf.Session.{Ncclient, World}
use device_cli_tool.Netconf.Client.Sent.{LogOf}
use device_cli_tool.Reporting.Patterns.{redact_text, sub_mac, sub_field, sub_xml}
use device_cli_tool.Tools.NetconfTest.{Args, edit, validate_timeout, validate_edit, validate_args}
use device_cli_tool.Tools.NetconfTest.Run.{Outside, truncate, main}
use device_cli_tool.Tools.NetconfTest.Permitted.{Permitted, main-Permitted}

abbrev live_edit : Args
live_edit = record {
  operation = edit;
  host = codes "10.0.0.1";
  port = 830;
  timeout_positive = true;
  max_output_chars = 20000;
  username = some (codes "admin");
  password_env = codes "PASSWORD";
  allow_unknown_host_key = true;
  host_key_fingerprint = none;
  include_output = true;
  node_key = some (codes "olt1");
  confirm_node = some (codes "olt1");
  confirm_host = some (codes "10.0.0.1");
  run_mutating = true;
  edit_config_file = some (codes "edit.xml");
  finalize_commit = true;
  confirm_timeout_seconds = some (fraction 120 1);
  verify_filter_file = none;
  datastore = none;
  filter_file = none;
}

live_edit-valid : validate_args live_edit ≡ ok tt
unfolding validate_args validate_edit validate_timeout
live_edit-valid = refl

abbrev shell : Outside
shell = record {
  environ = λ name. some (codes "secret");
  read_text = λ name.
      if str_eq name (codes "edit.xml") then ok (codes "<config/>") else err (file_not_found "");
  ipv6 = λ s. none;
  other_word = λ c. false;
}

abbrev olt : Ncclient
olt = record {
  State = ℕ;
  key_exchange = λ n. (ok (codes "key"), n);
  auth = λ user password n. (ok tt, n);
  is_open = λ n. true;
  close = λ n. (ok tt, n);
  close_session = λ n. (ok tt, n);
  server_capabilities = λ n.
      codes "urn:ietf:params:netconf:capability:candidate:1.0"
      ∷ codes "urn:ietf:params:netconf:capability:confirmed-commit:1.1"
      ∷ [];
  session_id = λ n. none;
  remote_server_key = λ n. some (codes "key");
  rpc = λ request n. (ok (record { xml = some (codes "<ok/>"); text = [] }), n);
}

abbrev before : World olt
before = record { state = 0; log = [] }

main-Permitted_example :
    LogOf (Permitted shell live_edit) (main shell olt (λ key. key) live_edit before).1
main-Permitted_example = main-Permitted shell live_edit olt (λ key. key) before tt

-- A text that is cut before the tag is closed keeps what is in it.
abbrev secret_xml : Str
secret_xml = codes "<token>s3cret</token>"

whole-hidden : redact_text (λ c. false) secret_xml ≡ codes "<token>***REDACTED***</token>"
unfolding redact_text sub_mac sub_field sub_xml is_space
whole-hidden = refl

cut-kept :
    redact_text (λ c. false) (truncate secret_xml 13) ≡ codes "<token>s3cret...<truncated 8 chars>"
unfolding redact_text sub_mac sub_field sub_xml truncate is_space decimal
cut-kept = refl

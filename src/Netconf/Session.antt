-- ===== src/Netconf/Session.antt =====
-- What cli_tool/transport/netconf.py uses of ncclient and paramiko, as a parameter: a server and
-- its library in some state, the calls on it, and a log of the calls that the model adds.
use device_cli_tool.Base.{Bool, Option, none, some, List, [], ◌∷◌, ◌++◌}
use device_cli_tool.Base.Exec.{Exec}
use device_cli_tool.Text.{Str}
use device_cli_tool.Netconf.Model.{CommitArgs}

pub data Rpc : Type 0 where
  get : Option Str → Rpc
  get_config : Str → Option Str → Rpc
  edit_config : Str → Str → Rpc
  lock unlock validate : Str → Rpc
  commit : CommitArgs → Rpc
  discard_changes : Rpc
  cancel_commit : Str → Rpc

-- A reply object: its `xml` attribute if that is a text, and its `str`.
pub record Reply : Type 0 where
  pub xml : Option Str
  pub text : Str

unfoldable pub reply_xml : Reply → Str
reply_xml r = elim r.xml [ none ↦ r.text | some xml ↦ elim xml [ [] ↦ r.text | c ∷ s ↦ c ∷ s ] ]

-- `session.connect` of ncclient up to its `_auth`, which gives the server's key; `_auth` and the
-- rest of `connect`, with the user name and the password; and the calls on the open session.
pub record Ncclient : Type 1 where
  pub State : Type 0
  pub key_exchange : Exec State Str
  pub auth : Str → Str → Exec State (Unit {0})
  pub is_open : State → Bool
  pub close : Exec State (Unit {0})
  pub close_session : Exec State (Unit {0})
  pub server_capabilities : State → List Str
  pub session_id : State → Option Str
  pub remote_server_key : State → Option Str
  pub rpc : Rpc → Exec State Reply

pub data Event : Type 0 where
  key_exchanged : Event
  credentials_sent : Event
  sent : Rpc → Event
  connection_closed session_closed : Event

pub record World (N : Ncclient) : Type 0 where
  pub state : N.State
  pub log : List Event

module _ {N : Ncclient} {A : Type 0} where
  -- One call of the library, written to the log.
  unfoldable pub call : Event → Exec N.State A → Exec (World N) A
  call event action w =
      let (r, s) = action w.state in (r, record { state = s; log = w.log ++ (event ∷ []) })

-- ===== src/Serial.antt =====
-- cli_tool/transport/serial.py: `SerialCliTransport`, and the serial port that a session opens.
pub mod Session
pub mod Closed
pub mod Tests
use device_cli_tool.Base.{ℕ, Bool, Option}
use device_cli_tool.Base.Exec.{Exec}
use device_cli_tool.Text.{Str}
use device_cli_tool.Netconf.Model.{Seconds}
use device_cli_tool.Telnet.Protocol.{Bytes}

pub record SerialCliTransport : Type 0 where
  pub port : Str
  pub username : Str
  pub password : Str
  pub baudrate : ℕ
  pub timeout : Seconds

-- pyserial's port, the clock and the UTF-8 codec. Asking for `in_waiting` may change the state, since time
-- passes. `rounds` is the number of rounds that a read begins before its deadline, `available_rounds`
-- that of `_read_available`, and `idle_rounds` the number of rounds with nothing to read that it
-- begins before the idle deadline.
pub record Port : Type 1 where
  pub State : Type 0
  pub open_port : Exec State (Unit {0})
  pub in_waiting : Exec State ℕ
  pub read : ℕ → Exec State Bytes
  pub write : Bytes → Exec State (Unit {0})
  pub is_open : State → Bool
  pub close_port : Exec State (Unit {0})
  pub rounds : State → ℕ
  pub available_rounds : State → ℕ
  pub idle_rounds : State → ℕ
  pub decode : Bytes → Str
  pub encode : Str → Bytes

-- `connected` says that `connection` is not None.
pub record World (P : Port) : Type 0 where
  pub remote : P.State
  pub connected : Bool
  pub prompt : Option Str

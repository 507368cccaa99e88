-- ===== src/Telnet/Options.antt =====
-- The fields of `TelnetCliTransport`, and the checks of `TelnetCliSession.__init__`.
use device_cli_tool.Base.{ℕ, Bool, not, ◌||◌, ltb, is_empty, Result, value_error, raise_if, ◌>>◌}
use device_cli_tool.Text.{Str}

pub record TelnetCliTransport : Type 0 where
  pub host : Str
  pub username : Str
  pub password : Str
  pub port : ℕ
  pub timeout_positive : Bool
  pub allow_insecure_telnet : Bool

-- The checks of `TelnetCliSession.__init__`. A port below 0 is refused as 0 is.
unfoldable pub check_session : TelnetCliTransport → Result (Unit {0})
check_session t = do
  raise_if (is_empty t.host) (value_error "host is required")
  raise_if (is_empty t.username) (value_error "username is required")
  raise_if (is_empty t.password) (value_error "password is required")
  raise_if (ltb t.port 1 || ltb 65535 t.port) (value_error "port must be between 1 and 65535")
  raise_if (not t.timeout_positive) (value_error "timeout must be greater than 0")

-- ===== src/Safety/Policy.antt =====
-- cli_tool/safety/policy.py.
pub mod Xpon
use device_cli_tool.Base.{
  ℕ, Bool, true, false, Option, none, some, List, [], ◌∷◌, ◌++◌, not, ◌&&◌, ◌||◌, ◌==◌, ltb, leb,
  if◌then◌else◌, length, all, Result, ok, err, value_error, permission_error, raise_if, ◌>>=◌, ◌>>◌,
}
use device_cli_tool.Text.{Str, codes, str_eq, str_mem, starts_with, is_digit, decimal}
use device_cli_tool.Base.{drop, ◌+◌, ◌-◌, ◌*◌}
use device_cli_tool.Safety.IpAddress.{ip_address}

-- `[A-Za-z0-9_.-]`
abbrev pub is_safe_char : ℕ → Bool
is_safe_char c =
    leb b'A' c && leb c b'Z'
    || leb b'a' c && leb c b'z'
    || is_digit c
    || c == b'_'
    || c == b'.'
    || c == b'-'

-- `SAFE_NODE_KEY.fullmatch(value)`, and so for SAFE_DEVICE_FAMILY.
abbrev pub is_safe_key : Str → Bool
is_safe_key value = leb 1 (length value) && leb (length value) 64 && all is_safe_char value

unfoldable pub validate_node_key : Str → Result Str
validate_node_key value =
    if is_safe_key value then ok value else err (value_error "unsafe node key")

unfoldable pub validate_device_family : Str → Result Str
validate_device_family value =
    if is_safe_key value then ok value else err (value_error "unsafe device family")

module _ (ipv6 : Str → Option Str) where
  unfoldable pub validate_ip_literal : Str → Result Str
  validate_ip_literal value = elim (ip_address ipv6 value) [
    | some text ↦ ok text
    | none ↦ err (value_error "host must be an IP literal")
  ]

pub record MutationAuthorization : Type 0 where
  pub expected_node : Str
  pub expected_host : Str
  pub confirmed_node : Str
  pub confirmed_host : Str
  pub run_mutating : Bool

module _ (ipv6 : Str → Option Str) where
  -- `MutationAuthorization.validate`
  unfoldable pub validate : MutationAuthorization → Result (Unit {0})
  validate a = do
    validate_node_key a.expected_node
    validate_ip_literal ipv6 a.expected_host
    raise_if (not a.run_mutating) (permission_error "mutating workflow requires --run-mutating")
    raise_if (not (str_eq a.confirmed_node a.expected_node))
        (permission_error "confirmed node does not exactly match the expected node")
    raise_if (not (str_eq a.confirmed_host a.expected_host))
        (permission_error "confirmed host does not exactly match the expected host")

-- What a caller can pass for an int: an int, a bool, or another object with its `str`.
pub data Number : Type 0 where
  int : ℕ → Number
  negative : ℕ → Number
  bool : Bool → Number
  object : Str → Number

-- `f"{value}"`
abbrev pub shown : Number → Str
shown (int n) = decimal n
shown (negative n) = b'-' ∷ decimal n
shown (bool true) = codes "True"
shown (bool false) = codes "False"
shown (object text) = text

abbrev pub in_range : Number → ℕ → Bool
in_range (int n) maximum = leb 1 n && leb n maximum
in_range _ maximum = false

unfoldable pub validate_xpon_target : Number → Number → Result (Unit {0})
validate_xpon_target slot port =
    if not (in_range slot 64)
    then err (value_error "xPON slot must be an integer from 1 to 64")
    else if not (in_range port 16)
    then err (value_error "xPON port must be an integer from 1 to 16")
    else ok tt

abbrev pub allowed_fixed_commands : List Str
allowed_fixed_commands =
    codes "configure"
    ∷ codes "inactive"
    ∷ codes "register-method A"
    ∷ codes "no inactive"
    ∷ codes "exit"
    ∷ []

abbrev pub interface_command : Number → Number → Str
interface_command slot port = codes "interface xpon " ++ (shown slot ++ (b'-' ∷ shown port))

abbrev pub expected_commands : Number → Number → List Str
expected_commands slot port =
    codes "configure"
    ∷ interface_command slot port
    ∷ codes "inactive"
    ∷ codes "register-method A"
    ∷ codes "no inactive"
    ∷ codes "exit"
    ∷ []

abbrev nonzero_digit : ℕ → Bool
nonzero_digit c = leb b'1' c && leb c b'9'

abbrev second_digit : ℕ → Str → ℕ × Str
second_digit first [] = (first, [])
second_digit first (d ∷ s) = if is_digit d then (first * 10 + (d - b'0'), s) else (first, d ∷ s)

-- `([1-9][0-9]?)`, as a number, with what stands behind it.
abbrev small_number : Str → Option (ℕ × Str)
small_number [] = none
small_number (c ∷ s) = if nonzero_digit c then some (second_digit (c - b'0') s) else none

abbrev small_number_last : ℕ → Option (ℕ × Str) → Option (ℕ × ℕ)
small_number_last slot (some (port, [])) = some (slot, port)
small_number_last slot _ = none

abbrev behind_slot : Option (ℕ × Str) → Option (ℕ × ℕ)
behind_slot (some (slot, c ∷ s)) =
    if c == b'-' then small_number_last slot (small_number s) else none
behind_slot _ = none

-- `SAFE_INTERFACE.fullmatch(command)` and the ints of its two groups.
unfoldable pub match_interface : Str → Option (ℕ × ℕ)
unfolding starts_with
match_interface command =
    if starts_with command (codes "interface xpon ")
    then behind_slot (small_number (drop 15 command))
    else none

abbrev is_int : Number → ℕ → Bool
is_int (int n) m = m == n
is_int (negative n) m = false
is_int (bool true) m = m == 1
is_int (bool false) m = m == 0
is_int (object text) m = false

abbrev is_target : Number → Number → Option (ℕ × ℕ) → Bool
is_target slot port none = false
is_target slot port (some (s, p)) = is_int slot s && is_int port p

-- The `for` loop over the commands.
unfoldable pub check_allowlist : List Str → Number → Number → Result (Unit {0})
unfolding match_interface
check_allowlist [] slot port = ok tt
check_allowlist (command ∷ commands) slot port =
    if str_mem command allowed_fixed_commands || is_target slot port (match_interface command)
    then check_allowlist commands slot port
    else err (permission_error "command is outside the protected xPON allowlist")

abbrev pub texts_eq : List Str → List Str → Bool
texts_eq [] [] = true
texts_eq (s ∷ ss) (t ∷ ts) = str_eq s t && texts_eq ss ts
texts_eq _ _ = false

unfoldable pub validate_xpon_mutation_commands : List Str → Number → Number → Result (List Str)
validate_xpon_mutation_commands commands slot port = do
  validate_xpon_target slot port
  raise_if (not (texts_eq commands (expected_commands slot port))) (
      permission_error
        "xPON mutation commands do not exactly match the protected allowlist sequence")
  check_allowlist commands slot port
  ok commands

-- ===== src/Tools/ReadonlySmoke/Settings.antt =====
-- The settings of tools/cli_tool_readonly_smoke.py: an argument, or else a value of the target's
-- mapping. An argument that is a number below 0 is refused as 0 is.
use device_cli_tool.Base.{
  ℕ, ◌∷◌, Bool, true, false, not, ◌||◌, ◌==◌, Option, none, some, if◌then◌else◌, is_empty, all,
  Error, Result, ok, err, system_exit, other_error, ◌>>=◌,
}
use device_cli_tool.Text.{Str, str_eq, strip, is_digit, number_from, decimal}
use device_cli_tool.Netconf.Model.{Seconds, no_number, negative, fraction, infinite}
use device_cli_tool.Devices.Catalog.{
  Yaml, null, boolean, text, number, scalar, Entries, get_value, has_key,
}

-- `cli_config.get(key, default)`
abbrev pub get_or : Str → Entries → Yaml → Yaml
get_or key config default = if has_key key config then get_value key config else default

abbrev not_text : Error
not_text = system_exit "must be a non-empty string"

-- The end of `_string_setting` and of `_optional_string`.
abbrev pub stripped : Yaml → Result Str
stripped (text s) = if is_empty (strip s) then err not_text else ok (strip s)
stripped _ = err not_text

abbrev pub given_text : Option Str → Yaml → Yaml
given_text none value = value
given_text (some s) value = text s

unfoldable pub string_setting : Option Str → Entries → Str → Str → Result Str
string_setting argument config key default =
    stripped (given_text argument (get_or key config (text default)))

abbrev pub optional_value : Yaml → Result (Option Str)
optional_value null = ok none
optional_value v = stripped v >>= λ s. ok (some s)

unfoldable pub optional_string : Entries → Str → Result (Option Str)
optional_string config key = optional_value (get_value key config)

-- `argument or _optional_string(...)`
unfoldable pub given_or : Option Str → Result (Option Str) → Result (Option Str)
given_or (some (c ∷ s)) otherwise = ok (some (c ∷ s))
given_or _ otherwise = otherwise

-- `resolved <= 0` and `resolved < 0`
abbrev pub not_positive : Seconds → Bool
not_positive negative = true
not_positive (fraction n d) = n == 0
not_positive _ = false

abbrev pub is_negative : Seconds → Bool
is_negative negative = true
is_negative _ = false

abbrev pub is_number : Seconds → Bool
is_number no_number = false
is_number _ = true

-- A number that passes a test.
abbrev pub unless_refused : (Seconds → Bool) → Seconds → Result Seconds
unless_refused refused s =
    if not (is_number s) || refused s then err (system_exit "must be a number") else ok s

-- `float(value)`, where a ValueError or a TypeError is `no_number`. Other errors are raised again.
module _ (float_of : Yaml → Result Seconds) (refused : Seconds → Bool) where
  abbrev pub float_value : Yaml → Seconds → Result Seconds
  float_value null default = ok default
  float_value (boolean b) default = err (system_exit "must be a number")
  float_value v default = float_of v >>= unless_refused refused

  -- `_positive_float` and `_non_negative_float`, by what they refuse.
  unfoldable pub float_setting : Option Seconds → Yaml → Seconds → Result Seconds
  float_setting none value default = float_value value default
  float_setting (some s) value default = unless_refused refused s

abbrev pub not_positive_int : Error
not_positive_int = system_exit "must be a positive integer"

abbrev pub positive : ℕ → Result ℕ
positive n = if n == 0 then err not_positive_int else ok n

-- A text that is what `str` makes of a positive number. `int` also reads other texts, which
-- are refused behind it.
unfoldable pub positive_text : Str → Result ℕ
positive_text s =
    if is_empty s || not (all is_digit s) || not (str_eq (decimal (number_from 0 s)) s)
    then err not_positive_int
    else positive (number_from 0 s)

-- `int` of a float: the result never prints as the float does, and infinity has none.
abbrev pub float_as_int : Seconds → Result ℕ
float_as_int infinite = err (other_error "cannot convert float infinity to integer")
float_as_int _ = err not_positive_int

module _ (float_of : Yaml → Result Seconds) where
  abbrev pub int_value : Yaml → ℕ → Result ℕ
  int_value null default = ok default
  int_value (number n) default = positive n
  int_value (text s) default = positive_text (strip s)
  int_value (scalar k) default = float_of (scalar k) >>= float_as_int
  int_value _ default = err not_positive_int

  -- `_positive_int`
  unfoldable pub positive_int : Option ℕ → Yaml → ℕ → Result ℕ
  positive_int none value default = int_value value default
  positive_int (some n) value default = positive n

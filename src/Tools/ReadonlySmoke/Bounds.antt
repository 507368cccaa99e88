-- ===== src/Tools/ReadonlySmoke/Bounds.antt =====
-- The numbers that the settings of tools/cli_tool_readonly_smoke.py let through.
use device_cli_tool.Base.{
  ℕ, ◌<◌, Bool, false, not, ◌≡◌, arith, Option, none, some, is_empty, all, ◌||◌, Result, err,
  Ensures, Ensures-bind, Ensures-ok, Ensures-err, Ensures-if,
}
use device_cli_tool.Text.{Str, strip, str_eq, is_digit, decimal, number_from}
use device_cli_tool.Netconf.Model.{Seconds, infinite, no_number, negative, fraction, not_a_number}
use device_cli_tool.Devices.Catalog.{Yaml, null, boolean, text, number, scalar}
use device_cli_tool.Tools.ReadonlySmoke.Settings.{
  not_positive, is_negative, unless_refused, float_value, float_setting, not_positive_int, positive,
  positive_text, float_as_int, int_value, positive_int,
}

-- A NaN is neither above nor below 0.
abbrev pub AboveZero : Seconds → Type 0
AboveZero negative = ⊥
AboveZero (fraction n d) = 0 < n
AboveZero _ = Unit

abbrev pub NotBelowZero : Seconds → Type 0
NotBelowZero negative = ⊥
NotBelowZero _ = Unit

pub AboveZero_lem : (t : Seconds) → not_positive t ≡ false → AboveZero t
AboveZero_lem negative h = cc
AboveZero_lem (fraction n d) h = ground (arith, h)
AboveZero_lem no_number h = tt
AboveZero_lem infinite h = tt
AboveZero_lem not_a_number h = tt

pub NotBelowZero_lem : (t : Seconds) → is_negative t ≡ false → NotBelowZero t
NotBelowZero_lem negative h = cc
NotBelowZero_lem (fraction n d) h = tt
NotBelowZero_lem no_number h = tt
NotBelowZero_lem infinite h = tt
NotBelowZero_lem not_a_number h = tt

abbrev pub IsPositive : ℕ → Type 0
IsPositive n = 0 < n

positive-IsPositive : (n : ℕ) → Ensures IsPositive (positive n)
positive-IsPositive n m h = ground (arith, h)

float_as_int-IsPositive : (s : Seconds) → Ensures IsPositive (float_as_int s)
float_as_int-IsPositive infinite = Ensures-err IsPositive _
float_as_int-IsPositive _ = Ensures-err IsPositive _

text-IsPositive : (s : Str) → Ensures IsPositive (positive_text s)
unfolding positive_text
text-IsPositive s =
    Ensures-if IsPositive
      (is_empty s || not (all is_digit s) || not (str_eq (decimal (number_from 0 s)) s))
      (err not_positive_int) (positive (number_from 0 s))
      (λ _. Ensures-err IsPositive not_positive_int) (λ _. positive-IsPositive (number_from 0 s))

module _ (float_of : Yaml → Result Seconds) where
  value-IsPositive :
      (v : Yaml) (default : ℕ) → 0 < default → Ensures IsPositive (int_value float_of v default)
  value-IsPositive null default h = Ensures-ok IsPositive default h
  value-IsPositive (number n) default h = positive-IsPositive n
  value-IsPositive (text s) default h = text-IsPositive (strip s)
  value-IsPositive (scalar k) default h =
      Ensures-bind IsPositive (float_of (scalar k)) float_as_int (λ s _. float_as_int-IsPositive s)
  value-IsPositive _ default h = Ensures-err IsPositive _

  pub positive_int-IsPositive :
      (argument : Option ℕ) (v : Yaml) (default : ℕ)
      → 0 < default
      → Ensures IsPositive (positive_int float_of argument v default)
  unfolding positive_int
  positive_int-IsPositive none v default h = value-IsPositive v default h
  positive_int-IsPositive (some n) v default h = positive-IsPositive n

  module _ (refused : Seconds → Bool) where
    abbrev pub Passes : Seconds → Type 0
    Passes s = refused s ≡ false

    unless-Passes : (s : Seconds) → Ensures Passes (unless_refused refused s)
    unless-Passes s t h = ground (arith, h)

    float_value-Passes :
        (v : Yaml) (default : Seconds)
        → Passes default
        → Ensures Passes (float_value float_of refused v default)
    float_value-Passes null default h = Ensures-ok Passes default h
    float_value-Passes (boolean b) default h = Ensures-err Passes _
    float_value-Passes v default h =
        Ensures-bind Passes (float_of v) (unless_refused refused) (λ s _. unless-Passes s)

    pub float_setting-Passes :
        (argument : Option Seconds) (v : Yaml) (default : Seconds)
        → Passes default
        → Ensures Passes (float_setting float_of refused argument v default)
    unfolding float_setting
    float_setting-Passes none v default h = float_value-Passes v default h
    float_setting-Passes (some s) v default h = unless-Passes s

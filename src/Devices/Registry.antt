-- ===== src/Devices/Registry.antt =====
-- cli_tool/devices/registry.py. A driver's catalog is a type `C`; a dict is a list of pairs, in which the
-- first pair of a key counts.
pub mod Spelling
pub mod Resolved
pub mod Order
use device_cli_tool.Base.{
  Bool, true, false, not, ◌&&◌, Option, none, some, List, [], ◌∷◌, if◌then◌else◌, is_empty, is_none,
  Result, ok, err, key_error, value_error,
}
use device_cli_tool.Text.{Str, str_eq, strip, casefold}

pub record DeviceDriver (C : Type 0) : Type 0 where
  pub family : Str
  pub model : Str
  pub catalog : C

-- `_normalize`
unfoldable pub normalize : Str → Str
normalize value = casefold (strip value)

pub record DeviceRegistry (C : Type 0) : Type 0 where
  pub drivers : List ((Str × Str) × DeviceDriver C)
  pub family_defaults : List (Str × DeviceDriver C)

abbrev pub key_eq : Str × Str → Str × Str → Bool
key_eq (family, model) (family', model') = str_eq family family' && str_eq model model'

-- `_driver_key`
abbrev pub driver_key : Str → Str → Str × Str
driver_key family model = (normalize family, normalize model)

module _ {C : Type 0} where
  unfoldable pub find_driver :
      Str × Str → List ((Str × Str) × DeviceDriver C) → Option (DeviceDriver C)
  find_driver key [] = none
  find_driver key ((k, driver) ∷ drivers) =
      let later = find_driver key drivers in if key_eq k key then some driver else later

  unfoldable pub find_default : Str → List (Str × DeviceDriver C) → Option (DeviceDriver C)
  find_default family [] = none
  find_default family ((f, driver) ∷ defaults) =
      let later = find_default family defaults in if str_eq f family then some driver else later

  unfoldable pub register : DeviceDriver C → Bool → DeviceRegistry C → Result (DeviceRegistry C)
  register driver default_for_family r =
      let key = driver_key driver.family driver.model in
      if not (is_none (find_driver key r.drivers))
      then err (value_error "driver already registered")
      else ok (record {
        drivers = (key, driver) ∷ r.drivers;
        family_defaults =
            if default_for_family
            then (normalize driver.family, driver) ∷ r.family_defaults
            else r.family_defaults;
      })

  abbrev pub or_default :
      Option (DeviceDriver C) → Option (DeviceDriver C) → Result (DeviceDriver C)
  or_default (some driver) default = ok driver
  or_default none (some driver) = ok driver
  or_default none none = err (key_error "no driver registered")

  -- `if model`
  abbrev pub find_model : Str → Option Str → DeviceRegistry C → Option (DeviceDriver C)
  find_model family none r = none
  find_model family (some model) r =
      if is_empty model then none else find_driver (driver_key family model) r.drivers

  unfoldable pub resolve : Str → Option Str → DeviceRegistry C → Result (DeviceDriver C)
  resolve family model r =
      or_default (find_model family model r) (find_default (normalize family) r.family_defaults)

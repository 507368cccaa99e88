-- ===== src/Devices/Tests.antt =====
-- A registry with two drivers.
use device_cli_tool.Base.{arith, inl, inr, ℕ, true, false, ◌≡◌, refl, some, [], ◌∷◌, ok}
use device_cli_tool.Text.{is_space, codes, strip, casefold}
use device_cli_tool.Devices.Registry.{
  DeviceDriver, DeviceRegistry, normalize, driver_key, find_driver, register, resolve,
}
use device_cli_tool.Devices.Registry.Order.{Commutes, register_comm}
use device_cli_tool.Devices.Registry.Spelling.{
  Respelled, letters, space_before, space_behind, letter, ends,
}
use device_cli_tool.Devices.Registry.Resolved.{resolve-register}

abbrev first : DeviceDriver ℕ
first = record { family = codes "Xpon"; model = codes "M1"; catalog = 1 }

abbrev second : DeviceDriver ℕ
second = record { family = codes "xpon"; model = codes "M2"; catalog = 2 }

abbrev with_first : DeviceRegistry ℕ
with_first = record {
  drivers = (driver_key (codes "Xpon") (codes "M1"), first) ∷ [];
  family_defaults = [];
}

abbrev with_both : DeviceRegistry ℕ
with_both = record {
  drivers = (driver_key (codes "xpon") (codes "M2"), second) ∷ with_first.drivers;
  family_defaults = (normalize (codes "xpon"), second) ∷ [];
}

register-second : register second true with_first ≡ ok with_both
unfolding register find_driver normalize strip casefold
register-second = refl

space : is_space 32 ≡ true
unfolding is_space
space = refl

xpon-Respelled : Respelled (codes " XPON ") (codes "xpon")
xpon-Respelled = space_before 32 space (
    space_behind {s = codes "XPON"} 32 space (
      letters (
        letter b'X' b'x' (inr (inl (omega arith))) (
          letter b'P' b'p' (inr (inl (omega arith))) (
            letter b'O' b'o' (inr (inl (omega arith)))
              (letter b'N' b'n' (inr (inl (omega arith))) ends))))))

m2-Respelled : Respelled (codes "m2") (codes "M2")
m2-Respelled =
    letters (letter b'm' b'M' (inr (inr (omega arith))) (letter b'2' b'2' (inl refl) ends))

first-found : find_driver (driver_key (codes " XPON ") (codes "m1")) with_first.drivers ≡ some first
unfolding find_driver normalize strip casefold
first-found = refl

resolve-register_example :
    (resolve (codes " XPON ") (some (codes "m2")) with_both ≡ ok second)
    × (resolve (codes " XPON ") (some (codes "m1")) with_both ≡ ok first)
resolve-register_example = (
  (resolve-register second true with_first with_both (codes " XPON ") (codes "m2") register-second
        refl).0
      xpon-Respelled m2-Respelled,
  (resolve-register second true with_first with_both (codes " XPON ") (codes "m1") register-second
        refl).1
      first first-found,
)

abbrev empty : DeviceRegistry ℕ
empty = record { drivers = []; family_defaults = [] }

register-first : register first false empty ≡ ok with_first
unfolding register find_driver normalize strip casefold
register-first = refl

register_comm_example : Commutes first second false true empty with_both
register_comm_example =
    register_comm first second false true empty with_first with_both register-first register-second
      refl

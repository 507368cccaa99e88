-- ===== src/Devices/Registry/Resolved.antt =====
-- What is registered is resolved, and stays so.
use device_cli_tool.Base.{
  Bool, true, false, ◌≡◌, refl, arith, none, some, List, ◌∷◌, is_empty, ok, Bool-cases, inl, inr,
}
use device_cli_tool.Text.{Str}
use device_cli_tool.Text.Laws.{str_eq→eq, str_eq_refl}
use device_cli_tool.Devices.Registry.Spelling.{Respelled, normalize-Respelled}
use device_cli_tool.Devices.Registry.{
  DeviceDriver, DeviceRegistry, key_eq, driver_key, find_driver, register, resolve,
}

pub key_eq→eq : (k k' : Str × Str) → key_eq k k' ≡ true → k ≡ k'
key_eq→eq (f, m) (f', m') h =
    let family = str_eq→eq f f' (ground (arith, h)) in
    let model = str_eq→eq m m' (ground (arith, h)) in λ i. (family i, model i)

pub key_eq_refl : (k : Str × Str) → key_eq k k ≡ true
key_eq_refl (f, m) = ground (arith, str_eq_refl f, str_eq_refl m)

driver_key-Respelled :
    {f f' m m' : Str} → Respelled f f' → Respelled m m' → driver_key f m ≡ driver_key f' m'
driver_key-Respelled hf hm =
    let family = normalize-Respelled hf in
    let model = normalize-Respelled hm in λ i. (family i, model i)

module _ {C : Type 0} where
  register-drivers :
      (driver : DeviceDriver C) (default : Bool) (r r' : DeviceRegistry C)
      → register driver default r ≡ ok r'
      → (find_driver (driver_key driver.family driver.model) r.drivers ≡ none)
        × (r'.drivers ≡ (driver_key driver.family driver.model, driver) ∷ r.drivers)
  unfolding register
  register-drivers driver default r r' h = (ground (arith, h), ground (arith, h))

  resolve-found :
      (d : DeviceDriver C) (r : DeviceRegistry C) (family model : Str)
      → is_empty model ≡ false
      → find_driver (driver_key family model) r.drivers ≡ some d
      → resolve family (some model) r ≡ ok d
  unfolding resolve
  resolve-found d r family model given e = rw (given, e) refl

  find-new :
      (k k' : Str × Str) (driver : DeviceDriver C) (drivers : List ((Str × Str) × DeviceDriver C))
      → k' ≡ k
      → find_driver k' ((k, driver) ∷ drivers) ≡ some driver
  unfolding find_driver
  find-new k k' driver drivers e =
      let same : key_eq k k' ≡ true = rw e (key_eq_refl k) in rw same refl

  find-old :
      (k k' : Str × Str) (driver before : DeviceDriver C)
      (drivers : List ((Str × Str) × DeviceDriver C))
      → find_driver k drivers ≡ none
      → find_driver k' drivers ≡ some before
      → find_driver k' ((k, driver) ∷ drivers) ≡ some before
  unfolding find_driver
  find-old k k' driver before drivers free found = elim (Bool-cases (key_eq k k')) [
    | inl same ↦
        let e : find_driver k drivers ≡ some before = rw (key_eq→eq k k' same) found in
        absurd (ground (arith, free, e))
    | inr differs ↦ rw differs found
  ]

  -- Once a driver is registered, it is resolved for every spelling of its family and model that differs in
  -- the case of ASCII letters and in outer white space only, and every driver that was found for a model
  -- before is still resolved: registering never replaces one.
  pub resolve-register :
      (driver : DeviceDriver C) (default : Bool) (r r' : DeviceRegistry C) (family model : Str)
      → register driver default r ≡ ok r'
      → is_empty model ≡ false
      → (Respelled family driver.family
          → Respelled model driver.model
          → resolve family (some model) r' ≡ ok driver)
        × ((before : DeviceDriver C)
            → find_driver (driver_key family model) r.drivers ≡ some before
            → resolve family (some model) r' ≡ ok before)
  unfolding find_driver
  resolve-register driver default r r' family model registered given =
      let key = driver_key driver.family driver.model in
      let (free, drivers) = register-drivers driver default r r' registered in
      (
        λ same_family same_model.
            let same = driver_key-Respelled same_family same_model in
            resolve-found driver r' family model given
              (rw drivers (find-new key (driver_key family model) driver r.drivers same)),
        λ before found. resolve-found before r' family model given (
            rw drivers (find-old key (driver_key family model) driver before r.drivers free found)),
      )

-- ===== src/Devices/Loader/Loaded.antt =====
-- What a driver is once `load_driver_source` has loaded it.
use mathlib.Core.Path.{subst}
use device_cli_tool.Base.{
  Ensures-bind, false, not, ◌≡◌, refl, arith, List, ◌∷◌, is_empty, Result, ok, Bool-cases, inl, inr,
  value_error, raise_if, ◌>>=◌,
}
use device_cli_tool.Text.{Str, codes, str_mem, strip, casefold, starts_with, remove_prefix}
use device_cli_tool.Devices.Catalog.{
  Yaml, text, Entries, get_value, CommandSpec, require_mapping, require_text,
  command_specs_from_mapping, create_catalog,
}
use device_cli_tool.Devices.Catalog.Loaded.{
  IsCatalog, command_specs_from_mapping-IsSpec, create_catalog-IsCatalog,
}
use device_cli_tool.Devices.Loader.{
  Driver, builtin_catalog_names, remove_suffix, build_driver, load_yaml_text, driver_from_mapping,
  load_driver, load_builtin_driver, load_driver_source,
}

pub record IsDriver (driver : Driver) : Type 0 where
  pub family_given : is_empty driver.family ≡ false
  pub model_given : is_empty driver.model ≡ false
  pub catalog_built : IsCatalog driver.catalog

require_text-given : (v : Yaml) (s : Str) → require_text v ≡ ok s → is_empty s ≡ false
require_text-given (text (c ∷ cs)) s h =
    let same : c ∷ cs ≡ s = cc in subst (λ t. is_empty t ≡ false) same refl
require_text-given _ s h = absurd cc

build_driver-IsDriver :
    (family model : Str) (specs : List CommandSpec)
    → is_empty family ≡ false
    → is_empty model ≡ false
    → ((catalog : List CommandSpec) → create_catalog specs ≡ ok catalog → IsCatalog catalog)
    → (driver : Driver) → build_driver family model specs ≡ ok driver
    → IsDriver driver
unfolding build_driver
build_driver-IsDriver family model specs hf hm hc =
    Ensures-bind IsDriver (create_catalog specs) _ (λ catalog made driver h.
      let same : record { family = family; model = model; catalog = catalog } ≡ driver = cc in
      subst IsDriver same
        (record { family_given = hf; model_given = hm; catalog_built = hc catalog made }))

module _ (read_yaml : Str → Result Yaml) (yaml_str : Yaml → Str) where
  driver_from_mapping-IsDriver :
      (data' : Entries) (driver : Driver)
      → driver_from_mapping read_yaml yaml_str data' ≡ ok driver
      → IsDriver driver
  unfolding driver_from_mapping
  driver_from_mapping-IsDriver data' =
      Ensures-bind IsDriver (require_text (get_value (codes "family") data')) _ (λ family hf.
        Ensures-bind IsDriver (require_text (get_value (codes "model") data')) _ (λ model hm.
          Ensures-bind IsDriver (require_mapping (get_value (codes "commands") data')) _
            (λ commands _.
              Ensures-bind IsDriver (command_specs_from_mapping yaml_str commands) _ (λ specs hs.
                build_driver-IsDriver family model specs
                  (require_text-given (get_value (codes "family") data') family hf)
                  (require_text-given (get_value (codes "model") data') model hm)
                  (λ catalog.
                    create_catalog-IsCatalog specs catalog
                      (command_specs_from_mapping-IsSpec yaml_str commands specs hs))))))

  -- Both ways of loading read a text, take it for YAML and make the driver.
  read_lem :
      (content : Result Str) (driver : Driver)
      → (content >>= λ s. load_yaml_text read_yaml yaml_str s >>= λ data'.
          driver_from_mapping read_yaml yaml_str data')
        ≡ ok driver
      → IsDriver driver
  read_lem content = Ensures-bind IsDriver content _ (λ s _.
      Ensures-bind IsDriver (load_yaml_text read_yaml yaml_str s) _
        (λ data' _. driver_from_mapping-IsDriver data'))

  module _ (read_text read_builtin : Str → Result Str) where
    builtin_lem :
        (name : Str) (driver : Driver)
        → load_builtin_driver read_yaml yaml_str read_builtin name ≡ ok driver
        → IsDriver driver
    unfolding load_builtin_driver
    builtin_lem name =
        let normalized = remove_suffix (casefold (strip name)) (codes ".yaml") in
        Ensures-bind IsDriver
          (raise_if (not (str_mem normalized builtin_catalog_names))
            (value_error "unknown built-in catalog"))
          _ (λ _ _. read_lem (read_builtin normalized))

    -- A driver that load_driver_source returns, from a file or from a catalog of the package, has a
    -- family and a model that are not empty. Each command of its catalog has an id that is not empty,
    -- has either one command or a list of commands, not both and not neither, and is the one that
    -- looking up its id returns.
    pub load_driver_source-IsDriver :
        (source : Str) (driver : Driver)
        → load_driver_source read_yaml yaml_str read_text read_builtin source ≡ ok driver
        → IsDriver driver
    unfolding load_driver_source load_driver
    load_driver_source-IsDriver source driver h =
        elim (Bool-cases (starts_with source (codes "builtin:"))) [
          | inl e ↦
              builtin_lem (remove_prefix source (codes "builtin:")) driver (ground (arith, e, h))
          | inr e ↦ read_lem (read_text source) driver (ground (arith, e, h))
        ]

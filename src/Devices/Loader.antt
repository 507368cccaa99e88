-- ===== src/Devices/Loader.antt =====
-- cli_tool/catalog/loader.py: drivers from YAML files and from the catalogs of the package. `read_text` is
-- the file system, `read_builtin` the resources of the package, `read_yaml` is `yaml.safe_load`.
pub mod Loaded
use device_cli_tool.Base.{
  Bool, true, false, not, ◌&&◌, List, [], ◌∷◌, ◌-◌, leb, length, drop, take, if◌then◌else◌, Result,
  ok, err, value_error, raise_if, ◌>>=◌, ◌>>◌,
}
use device_cli_tool.Text.{Str, codes, str_eq, str_mem, strip, casefold, starts_with, remove_prefix}
use device_cli_tool.Devices.Registry.{DeviceDriver}
use device_cli_tool.Devices.Catalog.{
  Yaml, Entries, get_value, CommandSpec, require_mapping, require_text, command_specs_from_mapping,
  create_catalog,
}

abbrev pub builtin_catalog_names : List Str
builtin_catalog_names = codes "generic" ∷ codes "neox" ∷ codes "ies52xx" ∷ codes "olt140x" ∷ []

-- `s.removesuffix(suffix)`
unfoldable pub remove_suffix : Str → Str → Str
remove_suffix s suffix =
    if leb (length suffix) (length s) && str_eq (drop (length s - length suffix) s) suffix
    then take (length s - length suffix) s
    else s

abbrev pub Driver : Type 0
Driver = DeviceDriver (List CommandSpec)

-- `build_driver`
unfoldable pub build_driver : Str → Str → List CommandSpec → Result Driver
build_driver family model specs = do
  catalog ← create_catalog specs
  ok (record { family = family; model = model; catalog = catalog })

module _ (read_yaml : Str → Result Yaml) (yaml_str : Yaml → Str) where
  unfoldable pub load_yaml_text : Str → Result Entries
  load_yaml_text content = do data' ← read_yaml content; require_mapping data'

  unfoldable pub driver_from_mapping : Entries → Result Driver
  driver_from_mapping data' = do
    family ← require_text (get_value (codes "family") data')
    model ← require_text (get_value (codes "model") data')
    commands ← require_mapping (get_value (codes "commands") data')
    specs ← command_specs_from_mapping yaml_str commands
    build_driver family model specs

  unfoldable pub load_catalog : (Str → Result Str) → Str → Result (List CommandSpec)
  load_catalog read_text path = do
    content ← read_text path
    data' ← load_yaml_text content
    commands ← require_mapping (get_value (codes "commands") data')
    specs ← command_specs_from_mapping yaml_str commands
    create_catalog specs

  unfoldable pub load_driver : (Str → Result Str) → Str → Result Driver
  load_driver read_text path = do
    content ← read_text path
    data' ← load_yaml_text content
    driver_from_mapping data'

  unfoldable pub load_builtin_driver : (Str → Result Str) → Str → Result Driver
  load_builtin_driver read_builtin name =
      let normalized = remove_suffix (casefold (strip name)) (codes ".yaml") in
      (do
        raise_if (not (str_mem normalized builtin_catalog_names))
            (value_error "unknown built-in catalog")
        content ← read_builtin normalized
        data' ← load_yaml_text content
        driver_from_mapping data')

  unfoldable pub load_driver_source : (Str → Result Str) → (Str → Result Str) → Str → Result Driver
  load_driver_source read_text read_builtin source =
      if starts_with source (codes "builtin:")
      then load_builtin_driver read_builtin (remove_prefix source (codes "builtin:"))
      else load_driver read_text source

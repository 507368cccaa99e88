-- ===== src/Devices/CatalogTests.antt =====
-- A driver with one command, read from a file.
use device_cli_tool.Base.{
  true, ◌≡◌, refl, some, [], ◌∷◌, Result, ok, err, value_error, if◌then◌else◌,
}
use device_cli_tool.Text.{Str, codes, starts_with, remove_prefix, str_eq}
use device_cli_tool.Devices.Catalog.{
  Yaml, text, boolean, mapping, no_entries, entry, CommandSpec, check_spec, string_tuple,
  command_spec_from_mapping, command_specs_from_mapping, create_catalog, get_spec, build_commands,
}
use device_cli_tool.Devices.Loader.{
  Driver, build_driver, load_yaml_text, driver_from_mapping, load_driver, load_driver_source,
}
use device_cli_tool.Devices.Loader.Loaded.{IsDriver, load_driver_source-IsDriver}

abbrev show_version : Yaml
show_version = mapping (
    entry (text (codes "readonly")) (boolean true)
      (entry (text (codes "command")) (text (codes "show version")) no_entries))

abbrev olt_yaml : Yaml
olt_yaml = mapping (
    entry (text (codes "family")) (text (codes "olt")) (
      entry (text (codes "model")) (text (codes "M1")) (
        entry (text (codes "commands"))
          (mapping (entry (text (codes "version")) show_version no_entries)) no_entries)))

-- The parser of YAML knows one text.
abbrev read_yaml : Str → Result Yaml
read_yaml content =
    if str_eq content (codes "olt") then ok olt_yaml else err (value_error "invalid YAML")

abbrev version : CommandSpec
version = record {
  command_id = codes "version";
  readonly = true;
  mode = codes "exec";
  command = some (codes "show version");
  commands = [];
  expected_tokens = [];
}

abbrev olt : Driver
olt = record { family = codes "olt"; model = codes "M1"; catalog = version ∷ [] }

load_driver_source-olt :
    load_driver_source read_yaml (λ _. []) ok (λ _. err (value_error "no resource")) (codes "olt")
    ≡ ok olt
unfolding load_driver_source load_driver load_yaml_text driver_from_mapping build_driver
    create_catalog command_specs_from_mapping command_spec_from_mapping string_tuple check_spec
    starts_with remove_prefix
load_driver_source-olt = refl

build_commands-version :
    build_commands ok (version ∷ []) (codes "version") ≡ ok (codes "show version" ∷ [])
unfolding build_commands get_spec
build_commands-version = refl

load_driver_source-IsDriver_example : IsDriver olt
load_driver_source-IsDriver_example =
    load_driver_source-IsDriver read_yaml (λ _. []) ok (λ _. err (value_error "no resource"))
      (codes "olt") olt load_driver_source-olt

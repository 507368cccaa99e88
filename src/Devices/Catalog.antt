-- ===== src/Devices/Catalog.antt =====
-- cli_tool/catalog/models.py and loader.py, and `build_driver` of cli_tool/devices/base.py. A YAML text
-- is a value of `Yaml` once PyYAML has read it (`read_yaml`); `yaml_str` is `str` of a value that is no
-- string. `number` is an int that is not below 0, and `scalar` a scalar of another kind. A dict is a
-- list of pairs with different keys.
pub mod Loaded
use device_cli_tool.Base.{
  ℕ, Bool, true, false, not, ◌&&◌, Option, none, some, List, [], ◌∷◌, ◌++◌, ◌==◌, length, drop,
  take, if◌then◌else◌, is_empty, is_none, Error, Result, ok, err, value_error, key_error, raise_if,
  ◌>>=◌, ◌>>◌, ◌-◌,
}
use device_cli_tool.Text.{Str, codes, str_eq, str_mem, strip, casefold, starts_with, remove_prefix}
use device_cli_tool.Devices.Registry.{DeviceDriver}

mutual
  pub data Yaml : Type 0 where
    null : Yaml
    boolean : Bool → Yaml
    text : Str → Yaml
    number : ℕ → Yaml
    scalar : ℕ → Yaml
    sequence : Items → Yaml
    mapping : Entries → Yaml

  pub data Items : Type 0 where
    no_items : Items
    item : Yaml → Items → Items

  pub data Entries : Type 0 where
    no_entries : Entries
    entry : Yaml → Yaml → Entries → Entries

-- `data.get(key)`, where a missing key is None.
abbrev pub is_key : Str → Yaml → Bool
is_key key (text s) = str_eq s key
is_key key _ = false

abbrev pub get_value : Str → Entries → Yaml
get_value key no_entries = null
get_value key (entry k v entries) =
    let rest = get_value key entries in if is_key key k then v else rest

pub record CommandSpec : Type 0 where
  pub command_id : Str
  pub readonly : Bool
  pub mode : Str
  pub command : Option Str
  pub commands : List Str
  pub expected_tokens : List Str

abbrev pub is_given : Option Str → Bool
is_given none = false
is_given (some s) = not (is_empty s)

-- `CommandSpec.__post_init__`
unfoldable pub check_spec : CommandSpec → Result (Unit {0})
check_spec spec = do
  raise_if (is_given spec.command && not (is_empty spec.commands))
      (value_error "cannot define both command and commands")
  raise_if (not (is_given spec.command) && is_empty spec.commands)
      (value_error "must define command or commands")
  raise_if (is_empty spec.command_id) (value_error "command_id is required")

-- All items, where all are strings.
abbrev pub add_text : Yaml → Option (List Str) → Option (List Str)
add_text (text s) (some texts) = some (s ∷ texts)
add_text _ _ = none

abbrev pub all_texts : Items → Option (List Str)
all_texts no_items = some []
all_texts (item v items) = add_text v (all_texts items)

abbrev pub require_texts : Option (List Str) → Result (List Str)
require_texts none = err (value_error "must contain only strings")
require_texts (some texts) = ok texts

-- `_string_tuple`
unfoldable pub string_tuple : Yaml → Result (List Str)
string_tuple null = ok []
string_tuple (sequence items) = require_texts (all_texts items)
string_tuple _ = err (value_error "must be a list of strings")

abbrev pub require_bool : Yaml → Result Bool
require_bool (boolean b) = ok b
require_bool _ = err (value_error "readonly must be true or false")

abbrev pub optional_text : Yaml → Result (Option Str)
optional_text null = ok none
optional_text (text s) = ok (some s)
optional_text _ = err (value_error "command must be a string")

abbrev pub has_key : Str → Entries → Bool
has_key key no_entries = false
has_key key (entry k v entries) =
    let rest = has_key key entries in if is_key key k then true else rest

abbrev pub require_mapping : Yaml → Result Entries
require_mapping (mapping entries) = ok entries
require_mapping _ = err (value_error "must be a mapping")

abbrev pub require_text : Yaml → Result Str
require_text (text (c ∷ s)) = ok (c ∷ s)
require_text _ = err (value_error "must be a non-empty string")

module _ (yaml_str : Yaml → Str) where
  abbrev pub str_of : Yaml → Str
  str_of (text s) = s
  str_of v = yaml_str v

  abbrev pub mode_of : Entries → Str
  mode_of raw =
      if has_key (codes "mode") raw then str_of (get_value (codes "mode") raw) else codes "exec"

  -- `_command_spec_from_mapping`
  unfoldable pub command_spec_from_mapping : Str → Entries → Result CommandSpec
  command_spec_from_mapping command_id raw = do
    readonly ← require_bool (get_value (codes "readonly") raw)
    command ← optional_text (get_value (codes "command") raw)
    commands ← string_tuple (get_value (codes "commands") raw)
    expected_tokens ← string_tuple (get_value (codes "expected_tokens") raw)
    let spec : CommandSpec = record {
      command_id = command_id;
      readonly = readonly;
      mode = mode_of raw;
      command = command;
      commands = commands;
      expected_tokens = expected_tokens;
    }
    check_spec spec
    ok spec

  -- One round of the loop of `_command_specs_from_mapping`.
  abbrev pub spec_of : Yaml → Yaml → Result CommandSpec
  spec_of key raw = do
    command_id ← require_text key
    entries ← require_mapping raw
    command_spec_from_mapping command_id entries

  unfoldable pub command_specs_from_mapping : Entries → Result (List CommandSpec)
  command_specs_from_mapping no_entries = ok []
  command_specs_from_mapping (entry key raw entries) =
      let rest = command_specs_from_mapping entries in
      spec_of key raw >>= λ spec. rest >>= λ specs. ok (spec ∷ specs)

-- `CommandCatalog`: the dictionary from ids to specs, as the list of its values.
abbrev pub put_spec : CommandSpec → List CommandSpec → List CommandSpec
put_spec spec [] = spec ∷ []
put_spec spec (other ∷ specs) =
    let rest = put_spec spec specs in
    if str_eq other.command_id spec.command_id then spec ∷ specs else other ∷ rest

abbrev pub put_specs : List CommandSpec → List CommandSpec → List CommandSpec
put_specs [] catalog = catalog
put_specs (spec ∷ specs) catalog = put_specs specs (put_spec spec catalog)

unfoldable pub create_catalog : List CommandSpec → Result (List CommandSpec)
create_catalog specs = do
  raise_if (not (length (put_specs specs []) == length specs))
      (value_error "command_id values must be unique")
  ok (put_specs specs [])

-- `CommandCatalog.get`
unfoldable pub get_spec : List CommandSpec → Str → Result CommandSpec
get_spec [] command_id = err (key_error "unknown command_id")
get_spec (spec ∷ specs) command_id =
    let rest = get_spec specs command_id in
    if str_eq spec.command_id command_id then ok spec else rest

-- `_format_template` over `str.format_map`, and the templates of a command.
abbrev pub format_all : (Str → Result Str) → List Str → Result (List Str)
format_all format [] = ok []
format_all format (template ∷ templates) =
    let rest = format_all format templates in
    format template >>= λ s. rest >>= λ texts. ok (s ∷ texts)

abbrev pub templates_of : CommandSpec → List Str
templates_of spec = first_of spec.commands spec.command
  where
    first_of : List Str → Option Str → List Str
    first_of (s ∷ texts) command = s ∷ texts
    first_of [] none = [] ∷ []
    first_of [] (some command) = command ∷ []

unfoldable pub build_commands : (Str → Result Str) → List CommandSpec → Str → Result (List Str)
build_commands format catalog command_id = do
  spec ← get_spec catalog command_id
  format_all format (templates_of spec)

unfoldable pub build_expected_tokens :
    (Str → Result Str) → List CommandSpec → Str → Result (List Str)
build_expected_tokens format catalog command_id = do
  spec ← get_spec catalog command_id
  format_all format spec.expected_tokens

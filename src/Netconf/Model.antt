-- ===== src/Netconf/Model.antt =====
-- The constants, the checks of arguments and the capability tests of cli_tool/transport/netconf.py.
pub mod Capabilities
use device_cli_tool.Base.{
  ℕ, zero, suc, ◌+◌, ◌/◌, ◌%◌, Bool, true, false, not, ◌&&◌, ◌||◌, Option, none, some, List, [],
  ◌∷◌, ◌++◌, ◌==◌, ltb, if◌then◌else◌, drop, map, is_empty, Result, ok, err, value_error,
  other_error, raise_if, ◌>>=◌, ◌>>◌,
}
use device_cli_tool.Text.{
  Str, codes, str_mem, strip, lower, starts_with, drop_while_end, before_char, decimal,
}

abbrev pub allowed_datastores : List Str
allowed_datastores = codes "running" ∷ codes "candidate" ∷ codes "startup" ∷ []

abbrev pub mutation_target : Str
mutation_target = codes "candidate"

abbrev pub candidate_capabilities : List Str
candidate_capabilities = codes "urn:ietf:params:netconf:capability:candidate:1.0" ∷ []

abbrev pub confirmed_commit_1_1 : Str
confirmed_commit_1_1 = codes "urn:ietf:params:netconf:capability:confirmed-commit:1.1"

abbrev pub confirmed_commit_capabilities : List Str
confirmed_commit_capabilities =
    codes "urn:ietf:params:netconf:capability:confirmed-commit:1.0" ∷ confirmed_commit_1_1 ∷ []

abbrev pub required_mutation_capabilities : List (Str × List Str)
required_mutation_capabilities =
    (codes ":candidate", candidate_capabilities)
    ∷ (codes ":confirmed-commit", confirmed_commit_capabilities)
    ∷ []

abbrev pub required_persist_capabilities : List (Str × List Str)
required_persist_capabilities =
    (codes ":candidate", candidate_capabilities)
    ∷ (codes ":confirmed-commit:1.1", confirmed_commit_1_1 ∷ [])
    ∷ []

-- `str(capability).split("?", 1)[0].strip()`
unfoldable pub capability_name : Str → Str
unfolding before_char strip
capability_name capability = strip (before_char b'?' capability)

abbrev pub meets : List Str → List Str → Bool
meets advertised [] = false
meets advertised (uri ∷ uris) = str_mem uri advertised || meets advertised uris

unfoldable pub missing_capabilities : List Str → List (Str × List Str) → List Str
missing_capabilities advertised [] = []
missing_capabilities advertised ((name, uris) ∷ required) =
    let rest = missing_capabilities advertised required in
    if meets advertised uris then rest else name ∷ rest

unfoldable pub missing_mutation_capabilities : List Str → List Str
unfolding missing_capabilities
missing_mutation_capabilities server_capabilities =
    missing_capabilities (map capability_name server_capabilities) required_mutation_capabilities

unfoldable pub missing_persist_capabilities : List Str → List Str
unfolding missing_capabilities
missing_persist_capabilities server_capabilities =
    missing_capabilities (map capability_name server_capabilities) required_persist_capabilities

-- A value given for a number of seconds: no number (a bool is none here), a finite float or an int
-- as a fraction `n / (d + 1)`, or what a float can be besides.
pub data Seconds : Type 0 where
  no_number : Seconds
  negative : Seconds
  fraction : ℕ → ℕ → Seconds
  infinite : Seconds
  not_a_number : Seconds

-- `int(confirm_timeout)` raises OverflowError at infinity and ValueError at a NaN.
unfoldable pub confirm_timeout_text : Seconds → Result Str
unfolding decimal
confirm_timeout_text no_number = err (value_error "confirm_timeout must be a number of seconds")
confirm_timeout_text negative = err (value_error "confirm_timeout must be at least 1 second")
confirm_timeout_text (fraction n d) =
    if ltb n (suc d)
    then err (value_error "confirm_timeout must be at least 1 second")
    else if not (n % suc d == 0)
    then err (value_error "confirm_timeout must be a whole number of seconds")
    else ok (decimal (n / suc d))
confirm_timeout_text infinite = err (other_error "OverflowError: cannot convert float infinity")
confirm_timeout_text not_a_number = err (value_error "cannot convert float NaN to integer")

-- Annotated `str`; another type raises the same.
unfoldable pub validate_persist_token : Str → Result (Unit {0})
unfolding strip
validate_persist_token token =
    raise_if (is_empty (strip token)) (value_error "persist token must be a non-empty string")

unfoldable pub validate_datastore : Str → Result (Unit {0})
validate_datastore datastore =
    raise_if (not (str_mem datastore allowed_datastores)) (value_error "unsupported datastore")

abbrev without_prefix : Str → Str
without_prefix text = if starts_with (lower text) (codes "sha256:") then drop 7 text else text

unfoldable pub normalize_fingerprint : Str → Result Str
unfolding strip lower starts_with
normalize_fingerprint value =
    let text = drop_while_end (λ c. c == b'=') (strip (without_prefix (strip value))) in
    if is_empty text then err (value_error "host key fingerprint is empty") else ok text

-- The keyword arguments of ncclient's `commit`.
pub record CommitArgs : Type 0 where
  pub confirmed : Bool
  pub timeout : Option Str
  pub persist : Option Str
  pub persist_id : Option Str

unfoldable pub confirmed_commit_kwargs : Str → Option Str → CommitArgs
confirmed_commit_kwargs timeout_text persist = record {
  confirmed = true;
  timeout = some timeout_text;
  persist = persist;
  persist_id = none;
}

-- `session.commit()`
abbrev pub commit_plain : CommitArgs
commit_plain = record { confirmed = false; timeout = none; persist = none; persist_id = none }

-- `session.commit(persist_id=token)`
abbrev pub commit_persisted : Str → CommitArgs
commit_persisted token = record {
  confirmed = false;
  timeout = none;
  persist = none;
  persist_id = some token;
}

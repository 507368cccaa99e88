-- ===== src/Base/Errors.antt =====
-- Python's exceptions as values: the class of what is raised, and the fixed part of its message.
-- What an f-string interpolates into a message is left out.
use Prim.Native.String.{String}
use mathlib.Core.Path.{◌≡◌, refl, subst}
use device_cli_tool.Base.Booleans.{if◌then◌else◌}
use mathlib.Core.Bool.{Bool, true, false}

pub data Error : Type 0 where
  value_error permission_error key_error runtime_error attribute_error : String → Error
  os_error file_not_found file_exists timeout_error connection_error : String → Error
  unsafe_remote_path transfer_limit ftp_capability ftp_error_perm : String → Error
  netconf_host_key netconf_capability line_card_parse authentication rpc_error : String → Error
  import_error system_exit ssh_exception eof_error config_error other_error : String → Error

-- `isinstance(error, OSError)`: the built-in subclasses are listed. `PermissionError` is one.
abbrev pub is_os_error : Error → Bool
is_os_error (os_error m) = true
is_os_error (file_not_found m) = true
is_os_error (file_exists m) = true
is_os_error (timeout_error m) = true
is_os_error (connection_error m) = true
is_os_error (permission_error m) = true
is_os_error _ = false

pub data Result {ℓ} (A : Type ℓ) : Type ℓ where
  ok : A → Result A
  err : Error → Result A

abbrev pub is_ok {ℓ} : {A : Type ℓ} → Result A → Bool
is_ok (ok value) = true
is_ok (err error) = false

abbrev pub IsErr {ℓ} : {A : Type ℓ} → Result A → Type 0
IsErr (ok value) = ⊥
IsErr (err error) = Unit

-- `if b: raise e`
abbrev pub raise_if : Bool → Error → Result (Unit {0})
raise_if false error = ok tt
raise_if true error = err error

module _ {ℓ κ} {A : Type ℓ} {B : Type κ} where
  -- A statement that may raise, and the rest of the body.
  infixl 5 ◌>>=◌ ◌>>◌
  abbrev pub ◌>>=◌ : Result A → (A → Result B) → Result B
  ok value >>= rest = rest value
  err error >>= rest = err error

  abbrev pub ◌>>◌ : Result A → Result B → Result B
  statement >> rest = statement >>= λ _. rest

module _ {A B : Type 0} where
  -- A body that returns comes behind a statement that returns.
  pub bind_ok :
      (r : Result A) (rest : A → Result B) (b : B)
      → (r >>= rest) ≡ ok b
      → (a : A) × (r ≡ ok a) × (rest a ≡ ok b)
  bind_ok (ok a) rest b h = (a, refl, h)
  bind_ok (err e) rest b h = absurd cc

-- What holds of the value, if there is one.
abbrev pub Ensures : {A : Type 0} → (A → Type 0) → Result A → Type 0
Ensures {A} P r = (a : A) → r ≡ ok a → P a

module _ {A B : Type 0} (P : B → Type 0) where
  -- What the rest ensures behind each value of the statement, the whole ensures.
  pub Ensures-bind :
      (r : Result A) (rest : A → Result B)
      → ((a : A) → r ≡ ok a → Ensures P (rest a))
      → Ensures P (r >>= rest)
  Ensures-bind (ok a) rest f b h = f a refl b h
  Ensures-bind (err e) rest f b h = absurd cc

module _ {A : Type 0} (P : A → Type 0) where
  pub Ensures-ok : (a : A) → P a → Ensures P (ok a)
  Ensures-ok a holds b h = let same : a ≡ b = cc in subst P same holds

  pub Ensures-err : (e : Error) → Ensures P (err e)
  Ensures-err e b h = absurd cc

  pub Ensures-if :
      (b : Bool) (r q : Result A)
      → (b ≡ true → Ensures P r)
      → (b ≡ false → Ensures P q)
      → Ensures P (if b then r else q)
  Ensures-if true r q hr hq = hr refl
  Ensures-if false r q hr hq = hq refl

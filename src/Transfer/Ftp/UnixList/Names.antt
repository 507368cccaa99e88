-- ===== src/Transfer/Ftp/UnixList/Names.antt =====
-- The names that the legacy listing accepts.
use mathlib.Core.Path.{subst}
use device_cli_tool.Base.{
  ℕ, pos, ◌==◌, Bool, true, false, not, ◌||◌, ◌≡◌, refl, sym, arith, is_empty, Error, Result, ok,
  err, raise_if, ◌>>=◌, bind_ok,
}
use device_cli_tool.Text.{Str, codes, strip, has_char}
use device_cli_tool.Text.Laws.{str_eq→eq}
use device_cli_tool.Transfer.Ftp.Calendar.{validate_unix_list_date}
use device_cli_tool.Transfer.Ftp.UnixList.{
  Entry, Groups, made, has_control, match_line, require_match, entry_name, entry_of, named_entry,
  validate_legacy_name, parse_unix_list_line,
}

-- One component of a path: no separator of either kind, no control character of a line, and no white
-- space around it.
pub record IsBasename (name : Str) : Type 0 where
  pub given : is_empty name ≡ false
  pub stripped : name ≡ strip name
  pub no_slash : has_char b'/' name ≡ false
  pub no_backslash : has_char 92 name ≡ false
  pub no_control : has_control name ≡ false

validated_lem : (name : Str) → validate_legacy_name name ≡ ok tt → IsBasename name
unfolding validate_legacy_name
validated_lem name h = record {
  given = ground (arith, h);
  stripped = str_eq→eq name (strip name) (ground (arith, h));
  no_slash = ground (arith, h);
  no_backslash = ground (arith, h);
  no_control = ground (arith, h);
}

-- Exactly one of three.
abbrev pub exactly_one : Bool → Bool → Bool → Bool
exactly_one true b c = not (b || c)
exactly_one false true c = not c
exactly_one false false c = c

pub record IsEntry (entry : Entry) : Type 0 where
  pub basename : IsBasename entry.name
  pub size_bytes : ℕ
  pub size_is : entry.size ≡ pos size_bytes
  pub one_kind : exactly_one entry.is_directory entry.is_regular_file entry.is_symlink ≡ true

kind_lem :
    (c : ℕ)
    → not (has_char c (codes "-dl")) ≡ false
    → exactly_one (c == b'd') (c == b'-') (c == b'l') ≡ true
kind_lem c h = ground (arith, h)

module _ (groups : Groups) (entry : Entry) where
  named_lem :
      (name : Str)
      → not (has_char groups.entry_type (codes "-dl")) ≡ false
      → named_entry groups name ≡ ok entry
      → IsEntry entry
  unfolding named_entry
  named_lem name typed h =
      let (u, valid, made_it) =
        bind_ok (validate_legacy_name name) (λ _. ok (made groups name)) entry h in
      let built : made groups name ≡ entry = cc in
      subst IsEntry built (record {
        basename = validated_lem name valid;
        size_bytes = groups.size;
        size_is = refl;
        one_kind = kind_lem groups.entry_type typed;
      })

  typed_lem :
      (b : Bool) (e : Error) (dated : Result (Unit {0})) (name : Result Str)
      → b ≡ not (has_char groups.entry_type (codes "-dl"))
      → (raise_if b e >>= λ _. dated >>= λ _. name >>= named_entry groups) ≡ ok entry
      → IsEntry entry
  typed_lem true e dated name typed h = absurd cc
  typed_lem false e (ok u) (ok name) typed h = named_lem name (sym typed) h
  typed_lem false e (ok u) (err e') typed h = absurd cc
  typed_lem false e (err e') name typed h = absurd cc

  entry_of_lem : entry_of groups ≡ ok entry → IsEntry entry
  unfolding entry_of
  entry_of_lem h =
      typed_lem _ _ (validate_unix_list_date groups.month groups.day groups.when)
        (entry_name groups.entry_type groups.name) refl h

-- An entry of a legacy listing has a safe basename for its name, a size that is not negative, and
-- exactly one of the three kinds.
pub parse_unix_list_line-IsEntry :
    (line : Str) (entry : Entry) → parse_unix_list_line line ≡ ok entry → IsEntry entry
unfolding parse_unix_list_line
parse_unix_list_line-IsEntry line entry h =
    let (u, checked, h1) =
      bind_ok (raise_if (is_empty line || has_control line) _)
        (λ _. require_match (match_line line) >>= entry_of) entry h in
    let (groups, matched, h2) = bind_ok (require_match (match_line line)) entry_of entry h1 in
    entry_of_lem groups entry h2

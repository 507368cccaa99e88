-- ===== src/Transfer/Paths.antt =====
-- cli_tool/transfer/paths.py, and what it uses of `pathlib.PurePosixPath`.
pub mod RoundTrip
pub mod Contained
pub mod Stable
use device_cli_tool.Base.{
  ℕ, Bool, true, false, not, ◌&&◌, ◌||◌, List, [], ◌∷◌, ◌++◌, ◌==◌, if◌then◌else◌, is_empty, length,
  take, Result, ok, err, unsafe_remote_path, raise_if, ◌>>=◌, ◌>>◌,
}
use device_cli_tool.Text.{Str, codes, str_eq, str_mem, strip, split_on, join, has_char}

-- `root` is "", "/" or "//"; `names` are the parts behind it.
pub record PurePath : Type 0 where
  pub root : Str
  pub names : List Str

abbrev pub slash : ℕ
slash = b'/'

-- Two leading slashes are kept; one, and three or more, are one.
abbrev pub path_root : Str → Str
path_root [] = []
path_root (a ∷ []) = if a == slash then slash ∷ [] else []
path_root (a ∷ b ∷ []) =
    if a == slash then (if b == slash then slash ∷ slash ∷ [] else slash ∷ []) else []
path_root (a ∷ b ∷ c ∷ s) =
    if a == slash
    then (if b == slash && not (c == slash) then slash ∷ slash ∷ [] else slash ∷ [])
    else []

-- Empty parts and single dots are dropped.
abbrev pub is_name : Str → Bool
is_name [] = false
is_name (c ∷ s) = not (str_eq (c ∷ s) (codes "."))

abbrev pub keep_names : List Str → List Str
keep_names [] = []
keep_names (s ∷ texts) = let rest = keep_names texts in if is_name s then s ∷ rest else rest

-- `PurePosixPath(s)`
unfoldable pub pure_path : Str → PurePath
unfolding split_on
pure_path s = record { root = path_root s; names = keep_names (split_on slash s) }

unfoldable pub is_absolute : PurePath → Bool
is_absolute p = not (is_empty p.root)

unfoldable pub parts : PurePath → List Str
parts p = if is_empty p.root then p.names else p.root ∷ p.names

-- `str(p)`
unfoldable pub path_text : PurePath → Str
unfolding join
path_text p =
    if is_empty p.root && is_empty p.names then codes "." else p.root ++ join (slash ∷ []) p.names

-- `p / q` for a relative `q`.
unfoldable pub join_path : PurePath → PurePath → PurePath
join_path p q = record { root = p.root; names = p.names ++ q.names }

abbrev pub texts_eq : List Str → List Str → Bool
texts_eq [] [] = true
texts_eq [] (t ∷ ts) = false
texts_eq (s ∷ ss) [] = false
texts_eq (s ∷ ss) (t ∷ ts) = str_eq s t && texts_eq ss ts

abbrev pub dots : Str
dots = codes ".."

abbrev pub is_within : PurePath → PurePath → Bool
is_within root candidate = texts_eq (take (length (parts root)) (parts candidate)) (parts root)

unfoldable pub candidate_path : PurePath → PurePath → PurePath
candidate_path root requested =
    if is_absolute requested then requested else join_path root requested

unfoldable pub resolve_remote_path : Str → Str → Result Str
resolve_remote_path remote_root remote_path = do
  raise_if (is_empty (strip remote_root))
      (unsafe_remote_path "remote_root must be a non-empty absolute POSIX path")
  raise_if (is_empty (strip remote_path))
      (unsafe_remote_path "remote_path must be a non-empty POSIX path")
  raise_if (has_char 0 remote_root || has_char 0 remote_path)
      (unsafe_remote_path "remote path cannot contain NUL")
  raise_if (has_char 92 remote_root || has_char 92 remote_path)
      (unsafe_remote_path "remote path must use POSIX separators")
  raise_if (not (is_absolute (pure_path remote_root)))
      (unsafe_remote_path "remote_root must be an absolute POSIX path")
  raise_if
      (str_mem dots (parts (pure_path remote_root)) || str_mem dots (parts (pure_path remote_path)))
      (unsafe_remote_path "remote path traversal is not allowed")
  raise_if
      (not (
        is_within (pure_path remote_root)
          (candidate_path (pure_path remote_root) (pure_path remote_path))))
      (unsafe_remote_path "remote path is outside configured root")
  ok (path_text (candidate_path (pure_path remote_root) (pure_path remote_path)))

-- ===== src/Transfer/Local.antt =====
-- The local file system, as far as a download uses it (`pathlib` and `os`): regular files, with
-- their content, at paths of a directory and a name. Directories exist when they are needed, and
-- writing a file does not fail.
pub mod Laws
pub mod Outcome
pub mod Refinement
use device_cli_tool.Base.{
  ℕ, Bool, true, false, not, ◌&&◌, Option, none, some, [], ◌∷◌, ◌++◌, if◌then◌else◌, is_none,
  Result, ok, err, file_exists, os_error,
}
use device_cli_tool.Base.Exec.{Exec}
use device_cli_tool.Text.{Str, codes, str_eq}

pub record FilePath : Type 0 where
  pub parent : Str
  pub name : Str

abbrev pub path_eq : FilePath → FilePath → Bool
path_eq p q = str_eq p.parent q.parent && str_eq p.name q.name

abbrev pub Content : Type 0
Content = Str

abbrev pub Files : Type 0
Files = FilePath → Option Content

abbrev pub update : Files → FilePath → Option Content → Files
update files p content q = if path_eq p q then content else files q

-- `str(path)`
abbrev pub file_path_text : FilePath → Str
file_path_text p = p.parent ++ (b'/' ∷ p.name)

-- `destination.with_name(f".{destination.name}.{uuid4().hex}.part")`
abbrev pub part_path : FilePath → Str → FilePath
part_path p unique = record p { name = b'.' ∷ (p.name ++ (b'.' ∷ (unique ++ codes ".part"))) }

abbrev pub exists : FilePath → Files → Bool
exists p files = not (is_none (files p))

-- `path.open("xb")`
unfoldable pub create : FilePath → Exec Files (Unit {0})
create p files =
    if exists p files
    then (err (file_exists "local file already exists"), files)
    else (ok tt, update files p (some []))

abbrev appended : Option Content → Content → Option Content
appended none chunk = some chunk
appended (some content) chunk = some (content ++ chunk)

-- `target.write(chunk)`
unfoldable pub write : FilePath → Content → Exec Files (Unit {0})
write p chunk files = (ok tt, update files p (appended (files p) chunk))

-- `path.unlink(missing_ok=True)`
unfoldable pub unlink : FilePath → Exec Files (Unit {0})
unlink p files = (ok tt, update files p none)

-- `os.replace(temporary, destination)`
unfoldable pub replace : FilePath → FilePath → Exec Files (Unit {0})
replace p q files = (ok tt, update (update files q (files p)) p none)

-- `os.link(temporary, destination)`
unfoldable pub link : Bool → FilePath → FilePath → Exec Files (Unit {0})
link hard_links temporary destination files =
    if exists destination files
    then (err (file_exists "file exists"), files)
    else if not hard_links
    then (err (os_error "operation not supported"), files)
    else (ok tt, update files destination (files temporary))

-- `_commit_local_file`. `os.link` raises FileExistsError where the destination exists, and another
-- OSError where hard links are not supported.
unfoldable pub commit_local_file : Bool → FilePath → FilePath → Bool → Exec Files (Unit {0})
unfolding replace
commit_local_file hard_links temporary destination true files = replace temporary destination files
commit_local_file hard_links temporary destination false files =
    if exists destination files
    then (err (file_exists "local destination already exists"), files)
    else if not hard_links
    then (err (os_error "atomic no-overwrite commit requires hard-link support"), files)
    else (ok tt, update (update files destination (files temporary)) temporary none)

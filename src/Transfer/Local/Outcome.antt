-- ===== src/Transfer/Local/Outcome.antt =====
-- A download on the local file system, step by step: the temporary file is created, written, moved to
-- the destination or taken away.
use device_cli_tool.Base.{
  ℕ, ◌+◌, ◌≤◌, Bool, true, false, not, ◌≡◌, refl, sym, ap, ◌∙◌, arith, [], ◌++◌, length,
  length-append, Option, none, some, Bool-cases, inl, inr, is_none,
}
use device_cli_tool.Base.Exec.Triples.{Ends}
use device_cli_tool.Text.{Str}
use device_cli_tool.Transfer.Models.{DownloadResult}
use device_cli_tool.Transfer.Local.{
  FilePath, Content, Files, path_eq, part_path, file_path_text, create, write, unlink, exists,
  commit_local_file, replace, update,
}
use device_cli_tool.Transfer.Local.Laws.{path_eq_refl, path_eq_iff, part_path-ne}

-- Nothing changed.
abbrev pub Same : Files → Files → Type 0
Same before files = (q : FilePath) → files q ≡ before q

-- Nothing but `temporary` changed.
abbrev pub Aside : Files → FilePath → Files → Type 0
Aside before temporary files = (q : FilePath) → path_eq temporary q ≡ false → files q ≡ before q

-- The temporary file holds `content`, which keeps to the limit, and the other files are as they
-- were in `before`.
pub record IsWritten (before : Files) (temporary : FilePath) (limit : ℕ) (content : Content)
    (files : Files) : Type 0 where
  pub others : (q : FilePath) → path_eq temporary q ≡ false → files q ≡ before q
  pub written : files temporary ≡ some content
  pub bounded : length content ≤ limit

-- `destination` holds `content`, which keeps to the limit, and nothing else changed.
pub record IsDownloaded (before : Files) (destination : FilePath) (limit : ℕ) (content : Content)
    (files : Files) : Type 0 where
  pub others : (q : FilePath) → path_eq destination q ≡ false → files q ≡ before q
  pub downloaded : files destination ≡ some content
  pub bounded : length content ≤ limit

-- `result` reports the download of `content` to `destination`, which was free or may be overwritten.
pub record IsReported (before : Files) (destination : FilePath) (overwrite : Bool) (limit : ℕ)
    (hexdigest : Content → Str) (result : DownloadResult) (files : Files) : Type 0 where
  pub content : Content
  pub local : IsDownloaded before destination limit content files
  pub size_is : result.size ≡ length content
  pub sha256_is : result.sha256 ≡ hexdigest content
  pub local_path_is : result.local_path ≡ file_path_text destination
  pub was_free : overwrite ≡ false → before destination ≡ none

pub write-IsWritten :
    (before : Files) (temporary : FilePath) (limit : ℕ) (content chunk : Content) (files : Files)
    → IsWritten before temporary limit content files
    → length content + length chunk ≤ limit
    → IsWritten before temporary limit (content ++ chunk) (write temporary chunk files).1
unfolding write
write-IsWritten before temporary limit content chunk files h fits = record {
  others = λ q ne. rw ne (h.others q ne);
  written = rw (path_eq_refl temporary, h.written) refl;
  bounded = omega (arith, length-append {0} content chunk);
}

module _ (before : Files) (destination : FilePath) (unique : Str) (limit : ℕ)
    (fresh : before (part_path destination unique) ≡ none) where
  temporary : FilePath
  temporary = part_path destination unique

  pub create-IsWritten :
      (files : Files)
      → Same before files
      → Ends
          (λ (_ : Unit {0}). IsWritten before (part_path destination unique) limit [])
          (Aside before (part_path destination unique))
          (create (part_path destination unique) files)
  unfolding create
  create-IsWritten files same =
      rw (same (part_path destination unique), fresh)
        (record {
          others = λ q ne. rw ne (same q);
          written = rw (path_eq_refl (part_path destination unique)) refl;
          bounded = omega arith;
        })

  -- The temporary file moves to the destination.
  moved_lem :
      (content : Content) (files : Files)
      → IsWritten before temporary limit content files
      → IsDownloaded before destination limit content
          (update (update files destination (files temporary)) temporary none)
  unfolding temporary
  moved_lem content files h = record {
    others = λ q ne. elim (Bool-cases (path_eq (part_path destination unique) q)) [
      | inl same ↦
          rw same (sym fresh ∙ ap before ((path_eq_iff (part_path destination unique) q).0 same))
      | inr differs ↦ rw (differs, ne) (h.others q differs)
    ];
    downloaded = elim (Bool-cases (path_eq (part_path destination unique) destination)) [
      | inl same ↦ absurd (
          part_path-ne destination unique
            ((path_eq_iff (part_path destination unique) destination).0 same))
      | inr differs ↦ rw (differs, path_eq_refl destination) h.written
    ];
    bounded = h.bounded;
  }

  pub commit-IsDownloaded :
      (hard_links overwrite : Bool) (size : ℕ) (content : Content) (files : Files)
      → IsWritten before (part_path destination unique) limit content files
      → size ≡ length content
      → Ends
          (λ (_ : Unit {0}) files.
            IsDownloaded before destination limit content files × (size ≡ length content))
          (Aside before (part_path destination unique))
          (commit_local_file hard_links (part_path destination unique) destination overwrite files)
  unfolding commit_local_file replace temporary
  commit-IsDownloaded hard_links true size content files h e = (moved_lem content files h, e)
  commit-IsDownloaded hard_links false size content files h e =
      elim (Bool-cases (exists destination files)) [
        | inl there ↦ rw there h.others
        | inr missing ↦ elim (Bool-cases hard_links) [
          | inl links ↦ rw (missing, links) (moved_lem content files h, e)
          | inr no_links ↦ rw (missing, no_links) h.others
        ]
      ]

  -- The handler of the `except` takes the temporary file away.
  pub unlink-Same :
      (files : Files)
      → Aside before (part_path destination unique) files
      → Same before (unlink (part_path destination unique) files).1
  unfolding unlink
  unlink-Same files aside q = elim (Bool-cases (path_eq (part_path destination unique) q)) [
    | inl same ↦
        rw same (sym fresh ∙ ap before ((path_eq_iff (part_path destination unique) q).0 same))
    | inr differs ↦ rw differs (aside q differs)
  ]

missing→none : (o : Option Content) → not (is_none o) ≡ false → o ≡ none
missing→none none h = refl
missing→none (some content) h = absurd (ground arith)

-- A destination that does not exist was free before.
pub missing-was_free :
    (before : Files) (destination : FilePath) (files : Files)
    → Same before files
    → exists destination files ≡ false
    → before destination ≡ none
missing-was_free before destination files same missing =
    sym (same destination) ∙ missing→none (files destination) missing

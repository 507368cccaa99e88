-- ===== src/Transfer/Local/Refinement.antt =====
-- A download as one step on the local files.
use mathlib.Core.Path.{subst}
use device_cli_tool.Base.{
  ℕ, ◌≤◌, Bool, false, ◌≡◌, sym, ap, ◌∙◌, length, none, some, Error, Result, ok, err, Bool-cases,
  inl, inr,
}
use device_cli_tool.Base.Exec.Triples.{Ends}
use device_cli_tool.Text.{Str}
use device_cli_tool.Transfer.Models.{DownloadResult}
use device_cli_tool.Transfer.Local.{FilePath, Content, Files, path_eq, file_path_text, update}
use device_cli_tool.Transfer.Local.Laws.{path_eq_iff}
use device_cli_tool.Transfer.Local.Outcome.{Same, IsDownloaded, IsReported}

-- The report on a content that stands at the destination.
abbrev pub report : (Content → Str) → FilePath → Str → Content → DownloadResult
report hexdigest destination remote_path content = record {
  remote_path = remote_path;
  local_path = file_path_text destination;
  size = length content;
  sha256 = hexdigest content;
}

-- The specification: from `before`, a download fails and changes nothing, or it puts a content within
-- the limit at the destination, in one step, and reports it.
pub data DownloadStep (before : Files) (destination : FilePath) (overwrite : Bool) (limit : ℕ)
    (hexdigest : Content → Str) : Result DownloadResult → Files → Type 0 where
  failed : (e : Error) → DownloadStep before destination overwrite limit hexdigest (err e) before
  finished :
      (remote_path : Str) (content : Content)
      → length content ≤ limit
      → (overwrite ≡ false → before destination ≡ none)
      → DownloadStep before destination overwrite limit hexdigest
          (ok (report hexdigest destination remote_path content))
          (update before destination (some content))

module _ (before : Files) (destination : FilePath) (overwrite : Bool) (limit : ℕ)
    (hexdigest : Content → Str) where
  updated_lem :
      (content : Content) (files : Files)
      → IsDownloaded before destination limit content files
      → (q : FilePath) → update before destination (some content) q ≡ files q
  updated_lem content files h q = elim (Bool-cases (path_eq destination q)) [
    | inl same ↦ rw same (sym h.downloaded ∙ ap files ((path_eq_iff destination q).0 same))
    | inr differs ↦ rw differs (sym (h.others q differs))
  ]

  -- A report and the files that come with it are a step of the specification.
  pub Ends→DownloadStep :
      (r : Result DownloadResult) (files : Files)
      → Ends
          (λ result files. IsReported before destination overwrite limit hexdigest result files)
          (Same before)
          (r, files)
      → DownloadStep before destination overwrite limit hexdigest r files
  Ends→DownloadStep (ok result) files h =
      let same_files : update before destination (some h.content) ≡ files =
        λ i q. updated_lem h.content files h.local q i in
      let same_result : report hexdigest destination result.remote_path h.content ≡ result = λ i.
        record {
          remote_path = result.remote_path;
          local_path = sym h.local_path_is i;
          size = sym h.size_is i;
          sha256 = sym h.sha256_is i;
        } in
      subst (λ f. DownloadStep before destination overwrite limit hexdigest (ok result) f)
        same_files
        (subst
          (λ x.
            DownloadStep before destination overwrite limit hexdigest (ok x)
              (update before destination (some h.content)))
          same_result (finished result.remote_path h.content h.local.bounded h.was_free))
  Ends→DownloadStep (err e) files same =
      let same_files : before ≡ files = λ i q. sym (same q) i in
      subst (λ f. DownloadStep before destination overwrite limit hexdigest (err e) f) same_files
        (failed e)

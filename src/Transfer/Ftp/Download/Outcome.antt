-- ===== src/Transfer/Ftp/Download/Outcome.antt =====
-- What a transfer leaves behind on the local file system, however the server behaves.
use device_cli_tool.Base.{
  ℕ, ◌+◌, Bool, true, false, ◌≡◌, ◌⊎◌, refl, arith, [], ◌++◌, ltb, length, length-append, none,
  Result, ok, err, Bool-cases, inl, inr,
}
use device_cli_tool.Base.Exec.{Exec, ◌>>=◌}
use device_cli_tool.Base.Exec.Keeps.{Keeps, Keeps-at, Keeps-of, Triple-Keeps}
use device_cli_tool.Base.Exec.Triples.{Ends, Triple, Triple-bind, Triple-check, Triple-pure}
use device_cli_tool.Text.{Str, codes}
use device_cli_tool.Transfer.Models.{RemoteFileInfo}
use device_cli_tool.Transfer.Local.{
  FilePath, Content, Files, part_path, file_path_text, create, write, exists, unlink, link, replace,
}
use device_cli_tool.Transfer.Local.Outcome.{
  Same, Aside, IsWritten, IsDownloaded, write-IsWritten, create-IsWritten, commit-IsDownloaded,
  unlink-Same,
}
use device_cli_tool.Transfer.Ftp.Options.{FtpClient}
use device_cli_tool.Transfer.Ftp.Server.{Ftplib, World, on_files}
use device_cli_tool.Transfer.Ftp.LocalFiles.{OfFiles, Ends-on_files, Keeps-require_ftp, Keeps-stat}
use device_cli_tool.Transfer.Ftp.Download.{
  Receiving, receive, received, retrieve, transfer, check_info, check_destination, download,
  not_linked,
}
use device_cli_tool.Transfer.Local as Local
use device_cli_tool.Transfer.Ftp.Download as Ftp

-- The two copies of `_commit_local_file` do the same.
pub commit-same :
    (hard_links : Bool) (temporary destination : FilePath) (overwrite : Bool) (files : Files)
    → Ftp.commit_local_file hard_links temporary destination overwrite files
      ≡ Local.commit_local_file hard_links temporary destination overwrite files
unfolding Ftp.commit_local_file Local.commit_local_file link unlink ◌>>=◌
commit-same hard_links temporary destination true files = refl
commit-same hard_links temporary destination false files =
    elim (Bool-cases (exists destination files)) [
      | inl there ↦ rw there refl
      | inr missing ↦ elim (Bool-cases hard_links) [
        | inl links ↦ rw (missing, links) refl
        | inr no_links ↦ rw (missing, no_links) refl
      ]
    ]

-- What ftplib documents of `retrbinary`: it works on the variables of the callback only by calling it,
-- and an exception of the callback ends it. `P` holds between the calls, `E` after a call that raises.
pub record CallsBack (F : Ftplib) : Type 1 where
  pub between_calls :
      {S : Type 0} (P E : S → Type 0) (command : Str) (callback : Content → Exec S (Unit {0}))
      (blocksize : ℕ)
      → ((chunk : Content) (s : S) → P s → Ends (λ _. P) E (callback chunk s))
      → (t : F.State) (s : S) → P s
      → Ends
          (λ _ (ts : F.State × S). P ts.1)
          (λ ts. P ts.1 ⊎ E ts.1)
          (F.retrbinary command callback blocksize (t, s))

module _ (F : Ftplib) (calls : CallsBack F) (hexdigest : Content → Str) (c : FtpClient)
    (hard_links : Bool) (before : Files) (destination : FilePath) (unique : Str) (overwrite : Bool)
    (fresh : before (part_path destination unique) ≡ none) where
  unfoldable pub temporary : FilePath
  temporary = part_path destination unique

  unfoldable pub limit : ℕ
  limit = c.max_download_bytes

  IsCopied : ℕ × Content → World F → Type 0
  IsCopied (size, digested) w =
      IsWritten before temporary limit digested w.files × (size ≡ length digested)

  unfoldable pub IsCommitted : ℕ × Content → World F → Type 0
  IsCommitted (size, digested) w =
      IsDownloaded before destination limit digested w.files × (size ≡ length digested)

  pub AsideWorld : World F → Type 0
  AsideWorld w = Aside before temporary w.files

  -- The invariant of the calls of `receive`.
  Between : Receiving → Type 0
  Between v =
      IsWritten before temporary limit v.digested v.files × (v.downloaded ≡ length v.digested)

  AsideVariables : Receiving → Type 0
  AsideVariables v = Aside before temporary v.files

  receive_lem :
      (chunk : Content) (v : Receiving)
      → Between v
      → Ends
          (λ (_ : Unit {0}). Between)
          AsideVariables
          (receive c (part_path destination unique) chunk v)
  unfolding receive Between AsideVariables temporary limit
  receive_lem chunk v (h, e) =
      elim (Bool-cases (ltb c.max_download_bytes (v.downloaded + length chunk))) [
        | inl over ↦ rw over h.others
        | inr fits ↦ rw fits (
          write-IsWritten before (part_path destination unique) c.max_download_bytes v.digested
              chunk v.files h (ground (arith, fits, e)),
          omega (arith, e, length-append {0} v.digested chunk),
        )
      ]

  retrieved_lem :
      (w : World F) (r : Result (Unit {0})) (s : F.State) (v : Receiving)
      → Ends
          (λ (_ : Unit {0}) (ts : F.State × Receiving). Between ts.1)
          (λ ts. Between ts.1 ⊎ AsideVariables ts.1)
          (r, (s, v))
      → Ends IsCopied AsideWorld (received F c w (r, s, v))
  unfolding IsCopied AsideWorld Between AsideVariables
  retrieved_lem w (ok u) s v h = h
  retrieved_lem w (err e) s v (inl h) = h.0.others
  retrieved_lem w (err e) s v (inr h) = h

  retrieve_lem :
      (path : Str)
      → Triple
          (OfFiles F (IsWritten before temporary limit []))
          (retrieve F c path temporary)
          IsCopied
          AsideWorld
  unfolding retrieve Between temporary limit
  retrieve_lem path = record {
    at = λ w h.
        let start : Receiving = record { downloaded = 0; digested = []; files = w.files } in
        let (r, (s, v)) =
          F.retrbinary (codes "RETR " ++ path) (receive c (part_path destination unique))
            c.chunk_size (w.remote, start) in
        retrieved_lem w r s v (
          calls.between_calls Between AsideVariables (codes "RETR " ++ path)
            (receive c (part_path destination unique)) c.chunk_size receive_lem w.remote start
            (h, refl));
  }

  create_lem :
      Triple
        (OfFiles F (Same before))
        (on_files (create temporary))
        (λ _. OfFiles F (IsWritten before temporary limit []))
        AsideWorld
  unfolding temporary AsideWorld limit
  create_lem = record {
    at = λ w same.
        Ends-on_files (λ _. IsWritten before (part_path destination unique) c.max_download_bytes [])
          (Aside before (part_path destination unique)) (create (part_path destination unique)) w
          (create-IsWritten before destination unique c.max_download_bytes fresh w.files same);
  }

  commit_at :
      (p : ℕ × Content) (w : World F)
      → IsCopied p w
      → Ends
          (λ (_ : Unit {0}). IsCommitted p)
          AsideWorld
          (on_files (Ftp.commit_local_file hard_links temporary destination overwrite) w)
  unfolding IsCopied IsCommitted AsideWorld limit temporary
  commit_at (size, digested) w (h, e) =
      Ends-on_files
        (λ _ files.
          IsDownloaded before destination c.max_download_bytes digested files
          × (size ≡ length digested))
        (Aside before (part_path destination unique))
        (Ftp.commit_local_file hard_links (part_path destination unique) destination overwrite) w
        (rw (commit-same hard_links (part_path destination unique) destination overwrite w.files) (
          commit-IsDownloaded before destination unique c.max_download_bytes fresh hard_links
            overwrite size digested w.files h e))

  IsCopied→Aside : (p : ℕ × Content) (w : World F) → IsCopied p w → AsideWorld w
  unfolding IsCopied AsideWorld
  IsCopied→Aside (size, digested) w (h, e) = h.others

  IsWritten→Aside : (w : World F) → OfFiles F (IsWritten before temporary limit []) w → AsideWorld w
  unfolding AsideWorld
  IsWritten→Aside w h = h.others

  Keeps-IsCopied :
      {A : Type 0} (p : ℕ × Content) (m : Exec (World F) A)
      → ((P : Files → Type 0) → Keeps (OfFiles F P) m)
      → Keeps (IsCopied p) m
  unfolding IsCopied
  Keeps-IsCopied (size, digested) m km =
      Keeps-of m λ w (h, e). (Keeps-at m (km (IsWritten before temporary limit digested)) w h, e)

  pub transfer_lem :
      (info : RemoteFileInfo)
      → Triple
          (OfFiles F (Same before))
          (transfer F hexdigest c hard_links info destination temporary overwrite)
          IsCommitted
          AsideWorld
  unfolding transfer
  transfer_lem info = Triple-bind _ _ create_lem λ _.
      Triple-bind _ _ (Triple-Keeps _ IsWritten→Aside (Keeps-require_ftp F _ c)) λ _.
        Triple-bind _ _ (retrieve_lem info.path) λ p.
          Triple-bind _ _ (Triple-check (IsCopied p) _ _ (IsCopied→Aside p)) λ _.
            Triple-bind _ _
              (Triple-Keeps _ (IsCopied→Aside p)
                (Keeps-IsCopied p _ λ P. Keeps-stat F P c info.path))
              λ final_info.
                Triple-bind _ _ (Triple-check (IsCopied p) _ _ (IsCopied→Aside p))
                  λ _. Triple-bind _ _ (record { at = commit_at p }) λ _. Triple-pure p IsCommitted

  pub unlink_lem :
      (w : World F)
      → AsideWorld w
      → Same before (on_files {F = F} (unlink (part_path destination unique)) w).1.files
  unfolding on_files AsideWorld temporary
  unlink_lem w aside = unlink-Same before destination unique limit fresh w.files aside

-- ===== src/Transfer/Sftp/Download/Loop.antt =====
-- The loop that copies the remote file.
use device_cli_tool.Base.{
  ℕ, zero, suc, ◌+◌, ◌≡◌, refl, sym, arith, [], ◌∷◌, ◌++◌, ltb, length, length-append, Result, ok,
  err, Bool-cases, inl, inr,
}
use device_cli_tool.Base.Exec.{Exec, continue, ◌>>=◌}
use device_cli_tool.Transfer.Local.{FilePath, Content, Files, write}
use device_cli_tool.Transfer.Local.Outcome.{IsWritten, write-IsWritten}
use device_cli_tool.Transfer.Sftp.Options.{Client}
use device_cli_tool.Transfer.Sftp.Remote.{Remote, World, on_remote, on_files}
use device_cli_tool.Transfer.Sftp.Download.{Progress, after_chunk, read_loop}

-- What the loop returns is the length and the bytes of what it wrote.
abbrev pub Agrees : Result Progress → Content → Type 0
Agrees (ok (downloaded, digested)) content = (downloaded ≡ length content) × (digested ≡ content)
Agrees (err e) content = Unit

module _ (R : Remote) (c : Client) (temporary : FilePath) (before : Files) where
  abbrev pub Copied : Result Progress × World R → Type 0
  Copied (r, w) =
      (content : Content) × IsWritten before temporary c.max_download_bytes content w.files
      × Agrees r content

  after_chunk_lem :
      (again : Progress → Exec (World R) Progress)
      → ((content : Content) (w : World R)
          → IsWritten before temporary c.max_download_bytes content w.files
          → Copied (again (length content, content) w))
      → (content chunk : Content) (w : World R)
      → IsWritten before temporary c.max_download_bytes content w.files
      → Copied (after_chunk R c temporary again (length content, content) chunk w)
  unfolding after_chunk on_files write ◌>>=◌
  after_chunk_lem again next content [] w h = (content, h, (refl, refl))
  after_chunk_lem again next content (b ∷ bytes) w h =
      let chunk = b ∷ bytes in
      elim (Bool-cases (ltb c.max_download_bytes (length content + length chunk))) [
        | inl over ↦ rw over (content, h, tt)
        | inr fits ↦
            rw (fits, sym (length-append {0} content chunk))
              (next (content ++ chunk) (record w { files = (write temporary chunk w.files).1 })
                (write-IsWritten before temporary c.max_download_bytes content chunk w.files h
                  (ground (arith, fits))))
      ]

  -- One call of `source.read`, and what comes after it.
  read_round_lem :
      (again : Progress → Exec (World R) Progress)
      → ((content : Content) (w : World R)
          → IsWritten before temporary c.max_download_bytes content w.files
          → Copied (again (length content, content) w))
      → (content : Content) (r : Result Content) (w : World R)
      → IsWritten before temporary c.max_download_bytes content w.files
      → Copied (continue r (after_chunk R c temporary again (length content, content)) w)
  read_round_lem again next content (ok chunk) w h = after_chunk_lem again next content chunk w h
  read_round_lem again next content (err e) w h = (content, h, tt)

  -- Whatever the fuel and however the server behaves.
  pub read_loop_lem :
      (fuel : ℕ) (content : Content) (w : World R)
      → IsWritten before temporary c.max_download_bytes content w.files
      → Copied (read_loop R c temporary fuel (length content, content) w)
  unfolding read_loop ◌>>=◌ on_remote
  read_loop_lem zero content w h = (content, h, tt)
  read_loop_lem (suc fuel) content w h =
      let (r, s) = R.read c.chunk_size w.remote in
      read_round_lem (read_loop R c temporary fuel) (read_loop_lem fuel) content r
        (record w { remote = s }) h

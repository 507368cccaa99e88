-- ===== src/Transfer/Sftp/Download/Fuel.antt =====
-- The fuel of the copying loop.
use device_cli_tool.Base.{
  ℕ, zero, suc, ◌+◌, ◌≤◌, ◌≡◌, refl, arith, [], ◌∷◌, ◌++◌, ltb, length, Result, ok, err, Bool-cases,
  inl, inr,
}
use device_cli_tool.Base.Exec.{Exec, continue, ◌>>=◌}
use device_cli_tool.Transfer.Local.{FilePath, Content, write}
use device_cli_tool.Transfer.Sftp.Options.{Client}
use device_cli_tool.Transfer.Sftp.Remote.{Remote, World, on_remote, on_files}
use device_cli_tool.Transfer.Sftp.Download.{Progress, after_chunk, read_loop}

module _ (R : Remote) (c : Client) (temporary : FilePath) where
  -- `next` and `next'` agree on what is left after at least one more byte.
  after_chunk-same :
      (next next' : Progress → Exec (World R) Progress) (d : ℕ) (digested : Content)
      → ((total : ℕ) (digested : Content) (w : World R)
          → suc d ≤ total
          → total ≤ c.max_download_bytes
          → next (total, digested) w ≡ next' (total, digested) w)
      → (r : Result Content) (w : World R)
      → continue r (after_chunk R c temporary next (d, digested)) w
        ≡ continue r (after_chunk R c temporary next' (d, digested)) w
  unfolding after_chunk ◌>>=◌ on_files write
  after_chunk-same next next' d digested agree (ok []) w = refl
  after_chunk-same next next' d digested agree (ok (b ∷ bytes)) w =
      elim (Bool-cases (ltb c.max_download_bytes (d + length (b ∷ bytes)))) [
        | inl over ↦ rw over refl
        | inr fits ↦ rw fits (
            agree (d + length (b ∷ bytes)) (digested ++ (b ∷ bytes))
              (record w { files = (write temporary (b ∷ bytes) w.files).1 }) (omega arith)
              (ground arith))
      ]
  after_chunk-same next next' d digested agree (err e) w = refl

  -- From `d` bytes on, all fuels above `max_download_bytes - d` give the same: the loop then never
  -- runs out of fuel, whatever the server answers.
  pub read_loop-fuel :
      (fuel fuel' d : ℕ) (digested : Content) (w : World R)
      → d ≤ c.max_download_bytes
      → suc c.max_download_bytes ≤ fuel + d
      → suc c.max_download_bytes ≤ fuel' + d
      → read_loop R c temporary fuel (d, digested) w ≡ read_loop R c temporary fuel' (d, digested) w
  unfolding read_loop ◌>>=◌ on_remote
  read_loop-fuel zero fuel' d digested w le h h' = absurd (omega arith)
  read_loop-fuel (suc fuel) zero d digested w le h h' = absurd (omega arith)
  read_loop-fuel (suc fuel) (suc fuel') d digested w le h h' =
      let (r, s) = R.read c.chunk_size w.remote in
      after_chunk-same (read_loop R c temporary fuel) (read_loop R c temporary fuel') d digested
        (λ total dig w' more fits.
          read_loop-fuel fuel fuel' total dig w' fits (omega arith) (omega arith))
        r (record w { remote = s })

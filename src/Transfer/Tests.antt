-- ===== src/Transfer/Tests.antt =====
-- A scripted SFTP server, runs of the client on it, and the theorems at concrete inputs.
use device_cli_tool.Base.{
  true, false, none, some, List, [], ◌∷◌, ◌≡◌, refl, length, take, ok, is_ok, arith,
}
use device_cli_tool.Base.Exec.{◌>>=◌}
use device_cli_tool.Base.Exec.Triples.{Ends}
use device_cli_tool.Text.{codes, str_mem, strip, split_on}
use device_cli_tool.Transfer.Paths.{
  pure_path, is_absolute, parts, path_text, dots, join_path, candidate_path, resolve_remote_path,
}
use device_cli_tool.Transfer.Paths.RoundTrip.{pure_path-IsPath, pure_path-text}
use device_cli_tool.Transfer.Paths.Contained.{resolve-contained}
use device_cli_tool.Transfer.Local.{FilePath, Content, create, write, unlink, commit_local_file}
use device_cli_tool.Transfer.Sftp.Options.{Client}
use device_cli_tool.Transfer.Sftp.Remote.{Attributes, Remote, World, on_remote, on_files}
use device_cli_tool.Transfer.Sftp.Client.{to_file_info, connect, require_sftp, resolve, stat}
use device_cli_tool.Transfer.Sftp.Download.{
  same_identity, after_chunk, read_loop, transfer, download,
}
use device_cli_tool.Transfer.Sftp.Download.Outcome.{download-outcome}
use device_cli_tool.Transfer.Local.Outcome.{IsReported, Same}
use device_cli_tool.Transfer.Sftp.Download.Fuel.{read_loop-fuel}

abbrev file_of_5 : Attributes
file_of_5 = record { st_mode = some 33188; st_size = some 5; st_mtime = some 1700000000 }

abbrev next_chunk : List Content → Content × List Content
next_chunk [] = ([], [])
next_chunk (chunk ∷ chunks) = (chunk, chunks)

-- Its state is the chunks that it has still to send.
abbrev server : Remote
server = record {
  State = List Content;
  configure_host_keys = λ s. (ok tt, s);
  open_session = λ s. (ok tt, s);
  close_client = λ s. (ok tt, s);
  close_sftp = λ s. (ok tt, s);
  listdir_attr =
      λ directory s. (ok ((codes "b.log", file_of_5) ∷ (codes "a.log", file_of_5) ∷ []), s);
  lstat = λ path s. (ok file_of_5, s);
  open_file = λ path s. (ok tt, s);
  read = λ size s. let (chunk, rest) = next_chunk s in (ok chunk, rest);
}

abbrev client : Client
client = record { remote_root = codes "/logs"; max_download_bytes = 6; chunk_size = 3 }

abbrev world : List Content → World server
world chunks = record { remote = chunks; connected = false; files = λ q. none }

abbrev destination : FilePath
destination = record { parent = codes "/tmp"; name = codes "a.log" }

abbrev two_chunks : List Content
two_chunks = codes "abc" ∷ codes "de" ∷ []

abbrev too_long : List Content
too_long = codes "abc" ∷ codes "de" ∷ codes "fg" ∷ []

-- The run that succeeds, and the run that the limit stops.
two_chunks-is_ok :
    is_ok
      (download server
        (λ s. s)
        client
        true
        (codes "a.log")
        destination
        (codes "u1")
        false
        (world two_chunks)).0
    ≡ true
unfolding download stat resolve resolve_remote_path ◌>>=◌ require_sftp connect on_remote on_files
    transfer create read_loop after_chunk write commit_local_file to_file_info same_identity
    pure_path is_absolute parts path_text join_path candidate_path strip split_on
two_chunks-is_ok = refl

too_long_fails :
    is_ok
      (download server
        (λ s. s)
        client
        true
        (codes "a.log")
        destination
        (codes "u1")
        false
        (world too_long)).0
    ≡ false
unfolding download stat resolve resolve_remote_path ◌>>=◌ require_sftp connect on_remote on_files
    transfer create read_loop after_chunk write commit_local_file to_file_info same_identity
    pure_path is_absolute parts path_text join_path candidate_path strip split_on unlink
too_long_fails = refl

download-outcome_example :
    Ends
      (λ result (w : World server).
        IsReported (λ q. none) destination false 6 (λ s. s) result w.files)
      (λ (w : World server). Same (λ q. none) w.files)
      (download server
        (λ s. s)
        client
        true
        (codes "a.log")
        destination
        (codes "u1")
        false
        (world two_chunks))
download-outcome_example =
    download-outcome server (λ s. s) client true (codes "a.log") destination (codes "u1") false
      (world two_chunks) refl

read_loop-fuel_example :
    read_loop server client destination 8 (0, []) (world two_chunks)
    ≡ read_loop server client destination 100 (0, []) (world two_chunks)
read_loop-fuel_example =
    read_loop-fuel server client destination 8 100 0 [] (world two_chunks) (omega arith)
      (omega arith) (omega arith)

resolve_example :
    resolve_remote_path (codes "/logs") (codes "sub/./a.log") ≡ ok (codes "/logs/sub/a.log")
unfolding resolve_remote_path pure_path is_absolute parts path_text join_path candidate_path strip
    split_on
resolve_example = refl

resolve-contained_example :
    (is_absolute (pure_path (codes "/logs/sub/a.log")) ≡ true)
    × (take
          (length (parts (pure_path (codes "/logs"))))
          (parts (pure_path (codes "/logs/sub/a.log")))
        ≡ parts (pure_path (codes "/logs")))
    × (str_mem dots (parts (pure_path (codes "/logs/sub/a.log"))) ≡ false)
    × (pure_path (codes "/logs/sub/a.log")
        ≡ candidate_path (pure_path (codes "/logs")) (pure_path (codes "sub/./a.log")))
resolve-contained_example =
    resolve-contained (codes "/logs") (codes "sub/./a.log") (codes "/logs/sub/a.log")
      resolve_example

pure_path-text_example :
    pure_path (path_text (pure_path (codes "//a//b"))) ≡ pure_path (codes "//a//b")
unfolding pure_path is_absolute split_on
pure_path-text_example =
    pure_path-text (pure_path (codes "//a//b")) (pure_path-IsPath (codes "//a//b")) refl

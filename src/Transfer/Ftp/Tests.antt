-- ===== src/Transfer/Ftp/Tests.antt =====
-- Runs of the FTP client on the scripted server, and the theorems at concrete inputs.
use device_cli_tool.Base.{
  pos, true, false, none, some, ◌≡◌, refl, Result, ok, err, is_ok, IsErr, ftp_error_perm,
}
use device_cli_tool.Base.Exec.{◌>>=◌}
use device_cli_tool.Base.Exec.Triples.{Ends}
use device_cli_tool.Text.{
  Str, codes, strip, lstrip, rstrip, lower, split_on, join, starts_with, number_from, before_char,
  after_char, contains, normalize_newlines,
}
use device_cli_tool.Parsers.LineCardStatus.{split_lines}
use device_cli_tool.Transfer.Paths.{
  pure_path, is_absolute, parts, path_text, join_path, candidate_path, resolve_remote_path,
}
use device_cli_tool.Transfer.Local.{FilePath, create, write, unlink, link}
use device_cli_tool.Transfer.Local.Refinement.{DownloadStep}
use device_cli_tool.Transfer.Ftp.Options.{Arguments, FtpClient, check_options, create_client}
use device_cli_tool.Transfer.Ftp.Options.Checked.{IsChecked, create_client-IsChecked}
use device_cli_tool.Transfer.Ftp.Server.{World, on_server, on_files}
use device_cli_tool.Transfer.Ftp.Calendar.{
  parse_modify_time, date_times, is_date_time, timestamp, ordinal, days_before_month, days_in_month,
  unix_date, validate_unix_list_date,
}
use device_cli_tool.Transfer.Ftp.Facts.{
  parse_facts, parse_mlst_response, facts_of_lines, file_info_from_facts, parse_int,
}
use device_cli_tool.Transfer.Ftp.UnixList.{
  Entry, match_line, validate_legacy_name, split_once, parse_unix_list_line,
}
use device_cli_tool.Transfer.Ftp.Session.{
  resolve, require_ftp, connect, open_new, open_session, new_client, tls_context,
}
use device_cli_tool.Transfer.Ftp.Listing.{list_files}
use device_cli_tool.Transfer.Ftp.Listing.Listed.{IsFtpListing, list_files-IsFtpListing}
use device_cli_tool.Transfer.Ftp.Stat.{stat, structured_stat, file_is_there}
use device_cli_tool.Transfer.Ftp.Stat.MissingCa.{exists-missing_ca}
use device_cli_tool.Transfer.Ftp.Download.{
  download, transfer, retrieve, receive, same_identity, commit_local_file,
}
use device_cli_tool.Transfer.Ftp.Download.Step.{download-DownloadStep}
use device_cli_tool.Transfer.Ftp.Unprotected.{unprotected-IsErr}
use device_cli_tool.Transfer.Ftp.Script.{server, server-CallsBack}

abbrev client : FtpClient
client = record {
  protocol = codes "ftps";
  port = 21;
  remote_root = codes "/logs";
  passive = true;
  ca_file = none;
  allow_unverified_tls = false;
  allow_legacy_listing = false;
  legacy_list_format = none;
  max_download_bytes = 6;
  chunk_size = 3;
}

abbrev world : (protection : Result (Unit {0})) → World (server protection)
world protection = record {
  remote = tt;
  connected = false;
  last_listing_method = none;
  last_metadata_method = none;
  files = λ q. none;
}

abbrev arguments : Arguments
arguments = record {
  host = codes "192.0.2.1";
  username = codes "reader";
  password = codes "secret";
  protocol = codes "FTPS";
  port = none;
  timeout_positive = true;
  remote_root = codes "/logs";
  passive = true;
  ca_file = none;
  allow_unverified_tls = false;
  allow_insecure_ftp = false;
  allow_legacy_listing = false;
  legacy_list_format = none;
  max_download_bytes = 6;
  chunk_size = 3;
}

abbrev destination : FilePath
destination = record { parent = codes "/tmp"; name = codes "a.log" }

-- The last second of the day, the epoch, and a fraction that is cut off.
parse_modify_time-epoch : parse_modify_time (some (codes "19700101000000.5")) ≡ ok (some (pos 0))
unfolding parse_modify_time date_times before_char is_date_time timestamp ordinal days_before_month
    days_in_month number_from
parse_modify_time-epoch = refl

parse_modify_time-leap :
    parse_modify_time (some (codes "20240229235959")) ≡ ok (some (pos 1709251199))
unfolding parse_modify_time date_times before_char is_date_time timestamp ordinal days_before_month
    days_in_month number_from
parse_modify_time-leap = refl

abbrev log_line : Str
log_line = codes "-rw-r--r--   1 root  root   5 Nov 14 22:13 a b.log"

abbrev log_entry : Entry
log_entry = record {
  name = codes "a b.log";
  size = pos 5;
  is_directory = false;
  is_regular_file = true;
  is_symlink = false;
}

parse_line : parse_unix_list_line log_line ≡ ok log_entry
unfolding parse_unix_list_line match_line strip lstrip rstrip starts_with number_from
    validate_unix_list_date unix_date before_char after_char is_date_time days_in_month
    validate_legacy_name split_once
parse_line = refl

parse_link :
    parse_unix_list_line (codes "lrwxrwxrwx 1 root root 7 Jan 01 2024 b -> a")
    ≡ ok (record {
      name = codes "b";
      size = pos 7;
      is_directory = false;
      is_regular_file = false;
      is_symlink = true;
    })
unfolding parse_unix_list_line match_line strip lstrip rstrip starts_with number_from
    validate_unix_list_date unix_date before_char after_char is_date_time days_in_month
    validate_legacy_name split_once
parse_link = refl

create_client-accepts : create_client arguments ≡ ok client
unfolding create_client check_options lower resolve_remote_path pure_path is_absolute parts
    path_text join_path candidate_path strip lstrip rstrip split_on join
create_client-accepts = refl

create_client-IsChecked_example : IsChecked arguments client
create_client-IsChecked_example = create_client-IsChecked arguments client create_client-accepts

list_files-IsFtpListing_example :
    Ends
      (λ items w'. IsFtpListing (server (ok tt)) client (codes "/logs") items w')
      (λ _. Unit {0})
      (list_files (server (ok tt)) client (codes "/logs") (world (ok tt)))
list_files-IsFtpListing_example =
    list_files-IsFtpListing (server (ok tt)) client (codes "/logs") (world (ok tt))

download-is_ok :
    is_ok
      (download
        (server (ok tt))
        (λ s. s)
        client
        true
        (codes "a.log")
        destination
        (codes "u1")
        false
        (world (ok tt))).0
    ≡ true
unfolding download stat structured_stat resolve resolve_remote_path pure_path is_absolute parts
    path_text join_path candidate_path strip lstrip rstrip split_on join ◌>>=◌ require_ftp connect
    open_new open_session new_client tls_context on_server on_files parse_mlst_response
    facts_of_lines split_lines normalize_newlines parse_facts lower file_info_from_facts contains
    starts_with parse_int number_from parse_modify_time date_times before_char after_char
    is_date_time timestamp ordinal days_before_month days_in_month transfer retrieve receive create
    write same_identity commit_local_file link unlink
download-is_ok = refl

download-DownloadStep_example :
    let (r, w') =
      download
        (server (ok tt))
        (λ s. s)
        client
        true
        (codes "a.log")
        destination
        (codes "u1")
        false
        (world (ok tt)) in
    DownloadStep (λ q. none) destination false 6 (λ s. s) r w'.files
download-DownloadStep_example =
    download-DownloadStep (server (ok tt)) (server-CallsBack (ok tt)) (λ s. s) client true
      (codes "a.log") destination (codes "u1") false (world (ok tt)) refl

abbrev refusal : Result (Unit {0})
refusal = err (ftp_error_perm "534 Request denied for policy reasons")

unprotected-IsErr_example :
    IsErr (list_files (server refusal) client (codes "a.log") (world refusal)).0
    × IsErr (stat (server refusal) client (codes "a.log") (world refusal)).0
    × IsErr
        (download
          (server refusal)
          (λ s. s)
          client
          true
          (codes "a.log")
          destination
          (codes "u1")
          false
          (world refusal)).0
unprotected-IsErr_example =
    unprotected-IsErr (server refusal) client (world refusal) (λ s. s) true (codes "a.log")
      destination (codes "u1") false (λ s. tt) refl refl

abbrev ca_client : FtpClient
ca_client = record client { ca_file = some (codes "/missing.pem") }

abbrev log_path : Str
log_path = codes "/logs/a.log"

resolve_log : resolve ca_client (codes "a.log") ≡ ok log_path
unfolding resolve resolve_remote_path pure_path is_absolute parts path_text join_path candidate_path
    strip lstrip rstrip split_on join
resolve_log = refl

exists-missing_ca_example :
    file_is_there (server (ok tt)) ca_client (codes "a.log") (world (ok tt))
    ≡ (ok false, world (ok tt))
exists-missing_ca_example =
    exists-missing_ca (server (ok tt)) ca_client (codes "a.log") log_path (codes "/missing.pem")
      (world (ok tt)) refl refl refl refl refl resolve_log

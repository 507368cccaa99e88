-- ===== src/Transfer/Ftp/Listing/Listed.antt =====
-- What `list_files` returns.
use device_cli_tool.Base.{
  Bool, true, false, not, ◌||◌, some, ◌≡◌, refl, arith, List, All, Result, ok, err, Error,
  if◌then◌else◌,
}
use device_cli_tool.Base.Exec.{Exec, lift, pure, ◌>>=◌}
use device_cli_tool.Base.Exec.Triples.{
  Ends, Triple, Triple-any, Triple-assume, Triple-bind, Triple-lift, Triple-pure, Triple-raise,
  Triple-try_except, Triple-unless_known,
}
use device_cli_tool.Text.{Str, codes}
use device_cli_tool.Transfer.Models.{RemoteFileInfo}
use device_cli_tool.Transfer.Sftp.Client.{sort_by_path}
use device_cli_tool.Transfer.Sftp.Client.Listing.{Ordered, AllOf, sort-All, sort-Ordered}
use device_cli_tool.Transfer.Ftp.Options.{FtpClient, is_unix}
use device_cli_tool.Transfer.Ftp.Server.{Facts, Ftplib, World}
use device_cli_tool.Transfer.Ftp.Session.{resolve}
use device_cli_tool.Transfer.Ftp.Listing.{
  Listing, structured, legacy, mlsd_items, list_items, legacy_list_files, request_entries,
  request_lines, second_refused, first_refused, finish_listing, list_files, set_listing_method,
}
use device_cli_tool.Transfer.Ftp.Listing.Items.{
  IsItem, IsLegacyItem, mlsd_items-All, list_items-All,
}

module _ (F : Ftplib) (c : FtpClient) where
  -- Where the items come from, and which attribute says so.
  pub data IsFrom (directory : Str) (items : List RemoteFileInfo) (w : World F) : Type 0 where
    from_mlsd :
        w.last_listing_method ≡ some (codes "mlsd")
        → All (IsItem c directory) items
        → IsFrom directory items w
    from_list :
        w.last_listing_method ≡ some (codes "legacy_unix")
        → c.allow_legacy_listing ≡ true
        → All (IsLegacyItem c directory) items
        → IsFrom directory items w

  -- What `list_files` promises of its result.
  pub record IsFtpListing (remote_path : Str) (items : List RemoteFileInfo) (w : World F)
      : Type 0 where
    pub directory : Str
    pub accepted : resolve c remote_path ≡ ok directory
    pub from : IsFrom directory items w
    pub ordered : Ordered items

  Sorted : Str → List RemoteFileInfo → World F → Type 0
  Sorted directory items w = IsFrom directory items w × Ordered items

  -- The end of a listing: the method is noted, and the items are sorted.
  legacy_end :
      (directory : Str) (r : Result (List RemoteFileInfo))
      → c.allow_legacy_listing ≡ true
      → AllOf (IsLegacyItem c directory) r
      → Triple
          (λ _. Unit {0})
          (lift r >>= λ results.
            set_listing_method F (codes "legacy_unix") >>= λ _. pure (sort_by_path results))
          (Sorted directory)
          (λ _. Unit {0})
  unfolding ◌>>=◌ Sorted
  legacy_end directory (ok items) allowed h = record {
    at = λ w _.
        (from_list refl allowed (sort-All (IsLegacyItem c directory) items h), sort-Ordered items);
  }
  legacy_end directory (err e) allowed h = record { at = λ w _. tt }

  mlsd_end :
      (directory : Str) (entries : List (Str × Facts)) (r : Result (List RemoteFileInfo))
      → AllOf (IsItem c directory) r
      → Triple
          (λ _. Unit {0})
          (set_listing_method F (codes "mlsd") >>= λ _.
            lift r >>= λ results. pure (sort_by_path results))
          (Sorted directory)
          (λ _. Unit {0})
  unfolding ◌>>=◌ Sorted
  mlsd_end directory entries (ok items) h = record {
    at = λ w _. (from_mlsd refl (sort-All (IsItem c directory) items h), sort-Ordered items);
  }
  mlsd_end directory entries (err e) h = record { at = λ w _. tt }

  allowed_lem : (b unix : Bool) → (not b || not unix) ≡ false → b ≡ true
  allowed_lem true unix h = refl
  allowed_lem false unix h = absurd (ground (arith, h))

  legacy_lem :
      (directory : Str)
      → Triple (λ _. Unit {0}) (legacy_list_files F c directory) (Sorted directory) (λ _. Unit {0})
  unfolding legacy_list_files
  legacy_lem directory =
      Triple-unless_known _ _ _ _ _ (λ w h. h)
        λ known. Triple-bind _ _ (Triple-any _) λ _. Triple-bind _ _ (Triple-any _) λ lines.
          legacy_end directory (list_items c directory lines)
            (allowed_lem c.allow_legacy_listing (is_unix c.legacy_list_format) known)
            (list_items-All c directory lines)

  -- What the requests end in.
  IsAnswer : Str → Listing → World F → Type 0
  IsAnswer directory (structured entries) w = Unit
  IsAnswer directory (legacy items) w = Sorted directory items w

  request_lem :
      (directory : Str) (facts : Bool)
      → Triple
          (λ _. Unit {0})
          (request_entries F directory facts)
          (IsAnswer directory)
          (λ _. Unit {0})
  unfolding request_entries IsAnswer
  request_lem directory facts =
      Triple-bind _ _ (Triple-any _)
        λ entries. Triple-pure (structured entries) (IsAnswer directory)

  lines_lem :
      (directory : Str)
      → Triple (λ _. Unit {0}) (request_lines F c directory) (IsAnswer directory) (λ _. Unit {0})
  unfolding request_lines IsAnswer
  lines_lem directory =
      Triple-bind _ _ (legacy_lem directory)
        λ items. Triple-pure (legacy items) (IsAnswer directory)

  Triple-if :
      {S A : Type 0} {P E : S → Type 0} {Q : A → S → Type 0} (b : Bool) (m n : Exec S A)
      → Triple P m Q E
      → Triple P n Q E
      → Triple P (if b then m else n) Q E
  Triple-if true m n tm tn = tm
  Triple-if false m n tm tn = tn

  second_lem :
      (directory : Str) (e : Error)
      → Triple (λ _. Unit {0}) (second_refused F c directory e) (IsAnswer directory) (λ _. Unit {0})
  unfolding second_refused
  second_lem directory e = Triple-if _ _ _ (lines_lem directory) (Triple-raise _ e (λ w h. h) _)

  first_lem :
      (directory : Str) (e : Error)
      → Triple (λ _. Unit {0}) (first_refused F c directory e) (IsAnswer directory) (λ _. Unit {0})
  unfolding first_refused
  first_lem directory e = Triple-if _ _ _ (lines_lem directory) (
      Triple-if _ _ _ (Triple-try_except _ _ (request_lem directory false) (second_lem directory))
        (Triple-raise _ e (λ w h. h) _))

  finish_lem :
      (directory : Str) (listing : Listing)
      → Triple
          (IsAnswer directory listing)
          (finish_listing F c directory listing)
          (Sorted directory)
          (λ _. Unit {0})
  unfolding finish_listing IsAnswer
  finish_lem directory (structured entries) =
      mlsd_end directory entries (mlsd_items c directory entries)
        (mlsd_items-All c directory entries)
  finish_lem directory (legacy items) = Triple-pure items (Sorted directory)

  sorted_lem :
      (remote_path : Str) (directory : Str)
      → resolve c remote_path ≡ ok directory
      → (m : Exec (World F) (List RemoteFileInfo))
      → Triple (λ _. Unit {0}) m (Sorted directory) (λ _. Unit {0})
      → Triple (λ _. Unit {0}) m (IsFtpListing remote_path) (λ _. Unit {0})
  unfolding Sorted
  sorted_lem remote_path directory e m tm = record {
    at = λ w u. let (r, w') = m w in go r w' (tm.at w u);
  }
    where
      go :
          (r : Result (List RemoteFileInfo)) (w' : World F)
          → Ends (λ items w. IsFrom directory items w × Ordered items) (λ _. Unit {0}) (r, w')
          → Ends (IsFtpListing remote_path) (λ _. Unit {0}) (r, w')
      go (ok items) w' (f, o) = record {
        directory = directory;
        accepted = e;
        from = f;
        ordered = o;
      }
      go (err x) w' h = tt

  list_lem :
      (remote_path : Str)
      → Triple
          (λ _. Unit {0})
          (list_files F c remote_path)
          (IsFtpListing remote_path)
          (λ _. Unit {0})
  unfolding list_files
  list_lem remote_path = Triple-bind _ _ (Triple-lift (λ _. Unit {0}) _ (λ w h. h)) λ directory.
      Triple-assume (λ _. Unit {0}) _ _ _
        λ accepted. sorted_lem remote_path directory accepted _ (
          Triple-bind _ _ (Triple-any _) λ _.
            Triple-bind _ _
              (Triple-try_except _ _ (request_lem directory true) (first_lem directory))
              λ listing. finish_lem directory listing)

-- What the FTP client's `list_files` returns, whatever the server sends, is sorted by path, and each path
-- in it is what the client resolved for a name below the directory that it resolved for the argument, dot
-- names left out. `last_listing_method` then says where it is from; it is "legacy_unix" only where the
-- legacy listing was allowed, and then each name is a safe basename.
pub list_files-IsFtpListing :
    (F : Ftplib) (c : FtpClient) (remote_path : Str) (w : World F)
    → Ends
        (λ items w'. IsFtpListing F c remote_path items w')
        (λ _. Unit {0})
        (list_files F c remote_path w)
list_files-IsFtpListing F c remote_path w = (list_lem F c remote_path).at w tt

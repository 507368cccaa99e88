-- ===== src/Transfer/Ftp/Listing/Items.antt =====
-- The items of a listing, one by one.
use device_cli_tool.Base.{
  false, ◌≡◌, refl, arith, List, [], ◌∷◌, Result, ok, err, Bool-cases, inl, inr,
}
use device_cli_tool.Text.{Str}
use device_cli_tool.Transfer.Models.{RemoteFileInfo}
use device_cli_tool.Transfer.Sftp.Client.Listing.{AllOf}
use device_cli_tool.Transfer.Ftp.Options.{FtpClient}
use device_cli_tool.Transfer.Ftp.Server.{Facts}
use device_cli_tool.Transfer.Ftp.Facts.{file_info_from_facts}
use device_cli_tool.Transfer.Ftp.UnixList.{Entry, parse_unix_list_line}
use device_cli_tool.Transfer.Ftp.UnixList.Names.{IsBasename, IsEntry, parse_unix_list_line-IsEntry}
use device_cli_tool.Transfer.Ftp.Session.{resolve}
use device_cli_tool.Transfer.Ftp.Listing.{
  join_remote, is_dots, add_item, add_line, mlsd_item, list_item, mlsd_items, list_items,
}

file_info-path :
    (path : Str) (facts : Facts) (i : RemoteFileInfo)
    → file_info_from_facts path facts ≡ ok i
    → i.path ≡ path
unfolding file_info_from_facts
file_info-path path facts i h = ground (arith, h)

module _ (c : FtpClient) (directory : Str) where
  -- The path of an item is what `resolve` returns for a name below the directory, which is no dot name.
  pub record IsItem (i : RemoteFileInfo) : Type 0 where
    pub name : Str
    pub not_dots : is_dots name ≡ false
    pub accepted : resolve c (join_remote directory name) ≡ ok i.path

  -- In the legacy listing the name is a basename too.
  abbrev pub IsLegacyItem : RemoteFileInfo → Type 0
  IsLegacyItem i = (item : IsItem i) × IsBasename item.name

  add_item-All :
      (P : RemoteFileInfo → Type 0) (r : Result RemoteFileInfo)
      (rest : Result (List RemoteFileInfo))
      → ((i : RemoteFileInfo) → r ≡ ok i → P i)
      → AllOf P rest
      → AllOf P (add_item r rest)
  add_item-All P (err e) rest hi hr = tt
  add_item-All P (ok i) (err e) hi hr = tt
  add_item-All P (ok i) (ok items) hi hr = (hi i refl, hr)

  mlsd_item_lem :
      (name : Str) (facts : Facts) (r : Result Str) (i : RemoteFileInfo)
      → is_dots name ≡ false
      → resolve c (join_remote directory name) ≡ r
      → mlsd_item c name facts r ≡ ok i
      → IsItem i
  mlsd_item_lem name facts (err e) i nd er h = absurd cc
  mlsd_item_lem name facts (ok path) i nd er h = record {
    name = name;
    not_dots = nd;
    accepted = rw (file_info-path path facts i h) er;
  }

  list_item_lem :
      (entry : Entry) (r : Result Str) (i : RemoteFileInfo)
      → is_dots entry.name ≡ false
      → resolve c (join_remote directory entry.name) ≡ r
      → IsEntry entry
      → list_item c entry r ≡ ok i
      → IsLegacyItem i
  list_item_lem entry (err e) i nd er he h = absurd cc
  list_item_lem entry (ok path) i nd er he h =
      let e : path ≡ i.path = cc in
      (record { name = entry.name; not_dots = nd; accepted = rw (← e) er }, he.basename)

  pub mlsd_items-All :
      (entries : List (Str × Facts)) → AllOf IsItem (mlsd_items c directory entries)
  unfolding mlsd_items
  mlsd_items-All [] = tt
  mlsd_items-All ((name, facts) ∷ entries) = elim (Bool-cases (is_dots name)) [
    | inl e ↦ rw e (mlsd_items-All entries)
    | inr e ↦ rw e (
        add_item-All IsItem (mlsd_item c name facts (resolve c (join_remote directory name))) _
          (λ i h. mlsd_item_lem name facts _ i e refl h) (mlsd_items-All entries))
  ]

  add_line-All :
      (r : Result Entry) (rest : Result (List RemoteFileInfo))
      → ((entry : Entry) → r ≡ ok entry → IsEntry entry)
      → AllOf IsLegacyItem rest
      → AllOf IsLegacyItem (add_line c directory r rest)
  add_line-All (err e) rest he hr = tt
  add_line-All (ok entry) rest he hr = elim (Bool-cases (is_dots entry.name)) [
    | inl e ↦ rw e hr
    | inr e ↦ rw e (
        add_item-All IsLegacyItem (list_item c entry (resolve c (join_remote directory entry.name)))
          rest (λ i h. list_item_lem entry _ i e refl (he entry refl) h) hr)
  ]

  pub list_items-All : (lines : List Str) → AllOf IsLegacyItem (list_items c directory lines)
  unfolding list_items
  list_items-All [] = tt
  list_items-All (line ∷ lines) =
      add_line-All (parse_unix_list_line line) (list_items c directory lines)
        (parse_unix_list_line-IsEntry line) (list_items-All lines)

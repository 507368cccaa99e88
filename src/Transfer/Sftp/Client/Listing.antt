-- ===== src/Transfer/Sftp/Client/Listing.antt =====
-- What `list_files` returns.
use device_cli_tool.Base.{
  true, false, ◌≡◌, refl, arith, List, [], ◌∷◌, All, Result, ok, err, Bool-cases, inl, inr,
}
use device_cli_tool.Base.Exec.{lift, pure, ◌>>=◌}
use device_cli_tool.Base.Exec.Triples.{
  Ends, Triple, Triple-any, Triple-assume, Triple-bind, Triple-lift,
}
use device_cli_tool.Text.{Str, str_leb}
use device_cli_tool.Transfer.Paths.{resolve_remote_path}
use device_cli_tool.Transfer.Models.{RemoteFileInfo}
use device_cli_tool.Transfer.Sftp.Options.{Client}
use device_cli_tool.Transfer.Sftp.Remote.{Attributes, Remote, World}
use device_cli_tool.Transfer.Sftp.Client.{
  insert_by_path, sort_by_path, to_file_info, posix_join, add_entry, resolve, listed, list_files,
}

-- In the order of the paths.
abbrev pub IsAbove : Str → List RemoteFileInfo → Type 0
IsAbove path items = All (λ (i : RemoteFileInfo). str_leb path i.path ≡ true) items

abbrev pub Ordered : List RemoteFileInfo → Type 0
Ordered [] = Unit
Ordered (i ∷ items) = IsAbove i.path items × Ordered items

str_leb_total : (s t : Str) → str_leb s t ≡ false → str_leb t s ≡ true
str_leb_total [] t h = absurd (ground arith)
str_leb_total (a ∷ s) [] h = refl
str_leb_total (a ∷ s) (b ∷ t) h = ground (arith, str_leb_total s t)

str_leb_trans : (s t u : Str) → str_leb s t ≡ true → str_leb t u ≡ true → str_leb s u ≡ true
str_leb_trans [] t u h h' = refl
str_leb_trans (a ∷ s) [] u h h' = absurd (ground arith)
str_leb_trans (a ∷ s) (b ∷ t) [] h h' = absurd (ground arith)
str_leb_trans (a ∷ s) (b ∷ t) (d ∷ u) h h' = ground (arith, str_leb_trans s t u)

module _ (P : RemoteFileInfo → Type 0) where
  insert-All :
      (i : RemoteFileInfo) (items : List RemoteFileInfo)
      → P i
      → All P items
      → All P (insert_by_path i items)
  insert-All i [] p h = (p, tt)
  insert-All i (j ∷ items) p (q, h) = elim (Bool-cases (str_leb i.path j.path)) [
    | inl e ↦ rw e (p, (q, h))
    | inr e ↦ rw e (q, insert-All i items p h)
  ]

  pub sort-All : (items : List RemoteFileInfo) → All P items → All P (sort_by_path items)
  unfolding sort_by_path
  sort-All [] h = tt
  sort-All (i ∷ items) (p, h) = insert-All i (sort_by_path items) p (sort-All items h)

IsAbove-trans :
    (s t : Str) (items : List RemoteFileInfo)
    → str_leb s t ≡ true
    → IsAbove t items
    → IsAbove s items
IsAbove-trans s t [] h above = tt
IsAbove-trans s t (i ∷ items) h (a, above) =
    (str_leb_trans s t i.path h a, IsAbove-trans s t items h above)

insert-Ordered :
    (i : RemoteFileInfo) (items : List RemoteFileInfo)
    → Ordered items
    → Ordered (insert_by_path i items)
insert-Ordered i [] h = (tt, tt)
insert-Ordered i (j ∷ items) (above, h) = elim (Bool-cases (str_leb i.path j.path)) [
  | inl e ↦ rw e ((e, IsAbove-trans i.path j.path items e above), (above, h))
  | inr e ↦ rw e (
    insert-All (λ (k : RemoteFileInfo). str_leb j.path k.path ≡ true) i items
        (str_leb_total i.path j.path e) above,
    insert-Ordered i items h,
  )
]

pub sort-Ordered : (items : List RemoteFileInfo) → Ordered (sort_by_path items)
unfolding sort_by_path
sort-Ordered [] = tt
sort-Ordered (i ∷ items) = insert-Ordered i (sort_by_path items) (sort-Ordered items)

-- `resolve` accepts the path of one of the names, below `directory`.
pub record IsResolved (root : Str) (directory : Str) (i : RemoteFileInfo) : Type 0 where
  pub name : Str
  pub attributes : Attributes
  pub accepted : resolve_remote_path root (posix_join directory name) ≡ ok i.path
  pub info_eq : i ≡ to_file_info i.path attributes

abbrev pub AllOf : (RemoteFileInfo → Type 0) → Result (List RemoteFileInfo) → Type 0
AllOf P (ok items) = All P items
AllOf P (err e) = Unit

module _ (R : Remote) (c : Client) where
  add_entry-All :
      (directory name : Str) (a : Attributes) (r : Result Str) (rest : Result (List RemoteFileInfo))
      → resolve_remote_path c.remote_root (posix_join directory name) ≡ r
      → AllOf (IsResolved c.remote_root directory) rest
      → AllOf (IsResolved c.remote_root directory) (add_entry a r rest)
  unfolding to_file_info
  add_entry-All directory name a (err e) rest er hr = tt
  add_entry-All directory name a (ok path) (err e) er hr = tt
  add_entry-All directory name a (ok path) (ok rest) er hr =
      (record { name = name; attributes = a; accepted = er; info_eq = refl }, hr)

  listed-All :
      (directory : Str) (entries : List (Str × Attributes))
      → AllOf (IsResolved c.remote_root directory) (listed R c directory entries)
  unfolding listed resolve
  listed-All directory [] = tt
  listed-All directory ((name, a) ∷ entries) =
      add_entry-All directory name a _ (listed R c directory entries) refl
        (listed-All directory entries)

  -- What `list_files` promises of its result.
  pub record IsListing (remote_path : Str) (items : List RemoteFileInfo) : Type 0 where
    pub directory : Str
    pub accepted : resolve_remote_path c.remote_root remote_path ≡ ok directory
    pub resolved : All (IsResolved c.remote_root directory) items
    pub ordered : Ordered items

  sorted-IsListing :
      (remote_path directory : Str) (r : Result (List RemoteFileInfo))
      → resolve_remote_path c.remote_root remote_path ≡ ok directory
      → AllOf (IsResolved c.remote_root directory) r
      → Triple
          (λ (w : World R). Unit {0})
          (lift r >>= λ results. pure (sort_by_path results))
          (λ items _. IsListing remote_path items)
          (λ _. Unit {0})
  unfolding ◌>>=◌
  sorted-IsListing remote_path directory (ok results) e h = record {
    at = λ w _. record {
      directory = directory;
      accepted = e;
      resolved = sort-All (IsResolved c.remote_root directory) results h;
      ordered = sort-Ordered results;
    };
  }
  sorted-IsListing remote_path directory (err x) e h = record { at = λ w _. tt }

  list_lem :
      (remote_path : Str)
      → Triple
          (λ _. Unit {0})
          (list_files R c remote_path)
          (λ items _. IsListing remote_path items)
          (λ _. Unit {0})
  unfolding list_files resolve
  list_lem remote_path = Triple-bind _ _ (Triple-lift (λ _. Unit {0}) _ (λ w h. h)) λ directory.
      Triple-assume (λ _. Unit {0}) _ _ _
        λ accepted. Triple-bind _ _ (Triple-any _) λ _. Triple-bind _ _ (Triple-any _) λ entries.
          sorted-IsListing remote_path directory (listed R c directory entries) accepted
            (listed-All directory entries)

-- What `list_files` returns, whatever entries the server sends, is sorted by path, and each path in
-- it is what `resolve` returned for a name of the server below the directory that `resolve` returned
-- for the argument; each item is built from that path and the attributes that came with an entry.
list_files-IsListing :
    (R : Remote) (c : Client) (remote_path : Str) (w : World R)
    → Ends
        (λ items _. IsListing R c remote_path items)
        (λ _. Unit {0})
        (list_files R c remote_path w)
list_files-IsListing R c remote_path w = (list_lem R c remote_path).at w tt

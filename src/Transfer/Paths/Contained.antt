-- ===== src/Transfer/Paths/Contained.antt =====
-- What `resolve_remote_path` returns lies below the configured root.
use device_cli_tool.Base.{
  true, false, ◌||◌, List, [], ◌∷◌, ◌++◌, ◌≡◌, refl, arith, inl, inr, is_empty, length, take,
  All-append, ok, Bool-cases,
}
use device_cli_tool.Text.{Str, str_mem, strip, has_char}
use device_cli_tool.Text.Laws.{str_eq→eq}
use device_cli_tool.Transfer.Paths.{
  PurePath, dots, parts, is_absolute, is_within, join_path, candidate_path, pure_path, path_text,
  texts_eq, resolve_remote_path,
}
use device_cli_tool.Transfer.Paths.RoundTrip.{IsPath, IsPart, pure_path-IsPath, pure_path-text}

texts_eq→eq : (ss ts : List Str) → texts_eq ss ts ≡ true → ss ≡ ts
texts_eq→eq [] [] h = refl
texts_eq→eq [] (t ∷ ts) h = cc
texts_eq→eq (s ∷ ss) [] h = cc
texts_eq→eq (s ∷ ss) (t ∷ ts) h = ground (arith, str_eq→eq s t, texts_eq→eq ss ts)

str_mem-append :
    (s : Str) (ts us : List Str) → str_mem s (ts ++ us) ≡ (str_mem s ts || str_mem s us)
str_mem-append s [] us = refl
str_mem-append s (t ∷ ts) us = ground (arith, str_mem-append s ts us)

-- What a successful call has checked.
pub record Resolved (root path : Str) (result : Str) : Type 0 where
  pub given : is_empty (strip root) ≡ false
  pub absolute : is_absolute (pure_path root) ≡ true
  pub no_nul : (has_char 0 root || has_char 0 path) ≡ false
  pub no_backslash : (has_char 92 root || has_char 92 path) ≡ false
  pub no_dots :
      (str_mem dots (parts (pure_path root)) || str_mem dots (parts (pure_path path))) ≡ false
  pub within : is_within (pure_path root) (candidate_path (pure_path root) (pure_path path)) ≡ true
  pub result_eq : result ≡ path_text (candidate_path (pure_path root) (pure_path path))

pub resolved :
    (root path result : Str) → resolve_remote_path root path ≡ ok result → Resolved root path result
unfolding resolve_remote_path
resolved root path result h = record {
  given = ground arith;
  absolute = ground arith;
  no_nul = ground arith;
  no_backslash = ground arith;
  no_dots = ground arith;
  within = ground arith;
  result_eq = ground arith;
}

module _ (root path : Str) (absolute : is_absolute (pure_path root) ≡ true) where
  abbrev pub candidate : PurePath
  candidate = candidate_path (pure_path root) (pure_path path)

  pub candidate-absolute : is_absolute candidate ≡ true
  unfolding candidate_path join_path is_absolute
  candidate-absolute = ground arith

  pub candidate-IsPath : IsPath candidate
  unfolding candidate_path join_path
  candidate-IsPath =
      let r = pure_path-IsPath root in
      let p = pure_path-IsPath path in
      elim (Bool-cases (is_absolute (pure_path path))) [
        | inl e ↦ rw (e, candidate_path) p
        | inr e ↦
            rw (e, candidate_path)
              (record {
                root = r.root;
                names =
                    All-append IsPart (pure_path root).names (pure_path path).names r.names p.names;
              })
      ]

  candidate-no_dots :
      (str_mem dots (parts (pure_path root)) || str_mem dots (parts (pure_path path))) ≡ false
      → str_mem dots (parts candidate) ≡ false
  unfolding candidate_path join_path parts is_absolute
  candidate-no_dots h =
      ground (arith, str_mem-append dots (pure_path root).names (pure_path path).names)

-- A path that the function returns is absolute, begins with all the parts of the configured root,
-- and has no part "..". Reading it back gives the very path that was checked.
pub resolve-contained :
    (root path result : Str)
    → resolve_remote_path root path ≡ ok result
    → (is_absolute (pure_path result) ≡ true)
      × (take (length (parts (pure_path root))) (parts (pure_path result)) ≡ parts (pure_path root))
      × (str_mem dots (parts (pure_path result)) ≡ false)
      × (pure_path result ≡ candidate_path (pure_path root) (pure_path path))
resolve-contained root path result h =
    let r = resolved root path result h in
    let c = candidate root path r.absolute in
    let back : pure_path result ≡ c = rw r.result_eq (
      pure_path-text c (candidate-IsPath root path r.absolute)
        (candidate-absolute root path r.absolute)) in
    rw back (
      candidate-absolute root path r.absolute,
      texts_eq→eq _ _ r.within,
      candidate-no_dots root path r.absolute r.no_dots,
      refl,
    )

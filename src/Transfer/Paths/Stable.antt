-- ===== src/Transfer/Paths/Stable.antt =====
-- A resolved path resolves to itself: `download` resolves the path of its first `stat` once more.
use device_cli_tool.Base.{
  ℕ, Bool, true, false, ◌||◌, List, [], ◌∷◌, ◌++◌, ◌≡◌, refl, sym, ap, ◌∙◌, arith, ◌==◌, is_empty,
  All, All-append, Bool-cases, inl, inr, ok,
}
use device_cli_tool.Text.{
  Str, is_space, strip, split_on, cut, join, has_char, keep_unless_last, drop_while_end,
}
use device_cli_tool.Transfer.Paths.{
  PurePath, slash, path_root, is_name, keep_names, pure_path, path_text, is_absolute, join_path,
  candidate_path, resolve_remote_path, is_within,
}
use device_cli_tool.Transfer.Paths.RoundTrip.{IsPath, absolute-root, path_text-absolute}
use device_cli_tool.Transfer.Paths.Contained.{
  resolved, resolve-contained, candidate, candidate-absolute, candidate-IsPath,
}

module _ (c : ℕ) (other : (c == slash) ≡ false) where
  abbrev Lacks : List ℕ → Type 0
  Lacks s = has_char c s ≡ false

  has_char-append : (s t : Str) → has_char c (s ++ t) ≡ (has_char c s || has_char c t)
  has_char-append [] t = refl
  has_char-append (d ∷ s) t = ground (arith, has_char-append s t)

  Lacks-cut :
      (b : Bool) (d : ℕ) (texts : List Str)
      → (d == c) ≡ false
      → All Lacks texts
      → All Lacks (cut b d texts)
  Lacks-cut true d texts e h = (refl, h)
  Lacks-cut false d [] e h = (ground arith, tt)
  Lacks-cut false d (t ∷ texts) e (ht, h) = (ground arith, h)

  Lacks-split : (s : Str) → Lacks s → All Lacks (split_on slash s)
  unfolding split_on
  Lacks-split [] h = (refl, tt)
  Lacks-split (d ∷ s) h =
      Lacks-cut (d == slash) d (split_on slash s) (ground arith) (Lacks-split s (ground arith))

  Lacks-keep : (texts : List Str) → All Lacks texts → All Lacks (keep_names texts)
  Lacks-keep [] h = tt
  Lacks-keep (s ∷ texts) (hs, h) = elim (Bool-cases (is_name s)) [
    | inl e ↦ rw e (hs, Lacks-keep texts h)
    | inr e ↦ rw e (Lacks-keep texts h)
  ]

  Lacks-join : (texts : List Str) → All Lacks texts → Lacks (join (slash ∷ []) texts)
  unfolding join
  Lacks-join [] h = refl
  Lacks-join (s ∷ []) (hs, h) = hs
  Lacks-join (s ∷ t ∷ texts) (hs, h) =
      let rest = join (slash ∷ []) (t ∷ texts) in
      ground (arith, has_char-append s (slash ∷ rest), Lacks-join (t ∷ texts) h, other)

  abbrev PathLacks : PurePath → Type 0
  PathLacks p = Lacks p.root × All Lacks p.names

  Lacks-root : (s : Str) → Lacks (path_root s)
  Lacks-root [] = refl
  Lacks-root (a ∷ []) = ground (arith, other)
  Lacks-root (a ∷ b ∷ []) = ground (arith, other)
  Lacks-root (a ∷ b ∷ d ∷ s) = ground (arith, other)

  Lacks-pure_path : (s : Str) → Lacks s → PathLacks (pure_path s)
  unfolding pure_path
  Lacks-pure_path s h = (Lacks-root s, Lacks-keep (split_on slash s) (Lacks-split s h))

  Lacks-text : (p : PurePath) → is_absolute p ≡ true → PathLacks p → Lacks (path_text p)
  unfolding path_text is_absolute
  Lacks-text p absolute (hr, hn) =
      ground (arith, has_char-append p.root (join (slash ∷ []) p.names), Lacks-join p.names hn)

  Lacks-candidate : (r p : PurePath) → PathLacks r → PathLacks p → PathLacks (candidate_path r p)
  unfolding candidate_path
  Lacks-candidate r p (rr, rn) (pr, pn) = elim (Bool-cases (is_absolute p)) [
    | inl e ↦ rw (e, candidate_path) (pr, pn)
    | inr e ↦
        rw (e, candidate_path) (unfold join_path in (rr, All-append Lacks r.names p.names rn pn))
  ]

  Lacks-resolved :
      (root path : Str)
      → is_absolute (candidate_path (pure_path root) (pure_path path)) ≡ true
      → (has_char c root || has_char c path) ≡ false
      → Lacks (path_text (candidate_path (pure_path root) (pure_path path)))
  Lacks-resolved root path absolute h =
      Lacks-text (candidate_path (pure_path root) (pure_path path)) absolute (
        Lacks-candidate (pure_path root) (pure_path path) (Lacks-pure_path root (ground arith))
          (Lacks-pure_path path (ground arith)))

keep-ne-nil : (b : Bool) (d : ℕ) (s : Str) → b ≡ false → is_empty (keep_unless_last b d s) ≡ false
keep-ne-nil true d s h = cc
keep-ne-nil false d s h = refl

-- A text that begins with a slash is not blank.
strip-slash : (s : Str) → is_empty (strip (slash ∷ s)) ≡ false
unfolding strip
strip-slash s = keep-ne-nil (is_space slash) slash (drop_while_end is_space s) refl

text-slash :
    (p : PurePath) → IsPath p → is_absolute p ≡ true → (rest : Str) × (path_text p ≡ slash ∷ rest)
text-slash p valid absolute = elim (absolute-root p valid absolute) [
  | inl e ↦ (join (slash ∷ []) p.names, path_text-absolute p absolute ∙ rw e refl)
  | inr e ↦ (slash ∷ join (slash ∷ []) p.names, path_text-absolute p absolute ∙ rw e refl)
]

candidate-of_absolute : (r p : PurePath) → is_absolute p ≡ true → candidate_path r p ≡ p
unfolding candidate_path
candidate-of_absolute r p h = rw h

-- Resolving a resolved path below the same root gives it back.
resolve-resolved :
    (root path result : Str)
    → resolve_remote_path root path ≡ ok result
    → resolve_remote_path root result ≡ ok result
unfolding resolve_remote_path
resolve-resolved root path result h =
    let r = resolved root path result h in
    let (absolute, prefix, no_dots, back) = resolve-contained root path result h in
    let c = candidate root path r.absolute in
    let c_absolute = candidate-absolute root path r.absolute in
    let (rest, begins) = text-slash c (candidate-IsPath root path r.absolute) c_absolute in
    let not_blank : is_empty (strip result) ≡ false =
      rw r.result_eq (rw begins (strip-slash rest)) in
    let nul : has_char 0 result ≡ false =
      rw r.result_eq (Lacks-resolved 0 refl root path c_absolute r.no_nul) in
    let backslash : has_char 92 result ≡ false =
      rw r.result_eq (Lacks-resolved 92 refl root path c_absolute r.no_backslash) in
    let same : candidate_path (pure_path root) (pure_path result) ≡ c =
      candidate-of_absolute (pure_path root) (pure_path result) absolute ∙ back in
    let text : path_text (candidate_path (pure_path root) (pure_path result)) ≡ result =
      ap path_text same ∙ sym r.result_eq in
    ground (
      arith,
      r.given,
      not_blank,
      nul,
      backslash,
      r.no_nul,
      r.no_backslash,
      r.absolute,
      r.no_dots,
      no_dots,
      r.within,
      ap (is_within (pure_path root)) same,
      text,
    )

-- ===== src/Transfer/Paths/RoundTrip.antt =====
-- Reading back the text of a path gives the path.
use device_cli_tool.Base.{
  ℕ, Bool, true, false, List, [], ◌∷◌, ◌++◌, ◌≡◌, refl, ap, ◌∙◌, arith, ◌⊎◌, inl, inr, ◌==◌, All,
  Bool-cases,
}
use device_cli_tool.Text.{Str, split_on, cut, join, has_char}
use device_cli_tool.Transfer.Paths.{
  PurePath, slash, path_root, is_name, keep_names, pure_path, path_text, is_absolute,
}

-- Every part that `pure_path` gives is one: it is no dot, not empty, and has no slash.
abbrev pub IsPart : Str → Type 0
IsPart s = (is_name s ≡ true) × (has_char slash s ≡ false)

pub record IsPath (p : PurePath) : Type 0 where
  pub root : (p.root ≡ []) ⊎ (p.root ≡ slash ∷ []) ⊎ (p.root ≡ slash ∷ slash ∷ [])
  pub names : All IsPart p.names

abbrev HasNoSlash : Str → Type 0
HasNoSlash s = has_char slash s ≡ false

cut-parts :
    (b : Bool) (d : ℕ) (texts : List Str)
    → b ≡ (d == slash)
    → All HasNoSlash texts
    → All HasNoSlash (cut b d texts)
cut-parts true d texts e h = (refl, h)
cut-parts false d [] e h = (ground arith, tt)
cut-parts false d (t ∷ texts) e (ht, h) = (ground arith, h)

split-parts : (s : Str) → All HasNoSlash (split_on slash s)
unfolding split_on
split-parts [] = (refl, tt)
split-parts (c ∷ s) = cut-parts (c == slash) c (split_on slash s) refl (split-parts s)

keep-parts : (texts : List Str) → All HasNoSlash texts → All IsPart (keep_names texts)
keep-parts [] h = tt
keep-parts (s ∷ texts) (hs, h) = elim (Bool-cases (is_name s)) [
  | inl e ↦ rw e ((e, hs), keep-parts texts h)
  | inr e ↦ rw e (keep-parts texts h)
]

path_root-cases :
    (s : Str) → (path_root s ≡ []) ⊎ (path_root s ≡ slash ∷ []) ⊎ (path_root s ≡ slash ∷ slash ∷ [])
path_root-cases [] = inl refl
path_root-cases (a ∷ []) = ground arith
path_root-cases (a ∷ b ∷ []) = ground arith
path_root-cases (a ∷ b ∷ c ∷ s) = ground arith

pub pure_path-IsPath : (s : Str) → IsPath (pure_path s)
unfolding pure_path
pure_path-IsPath s = record {
  root = path_root-cases s;
  names = keep-parts (split_on slash s) (split-parts s);
}

-- Splitting at the slashes of a joined text.
split-append :
    (s rest : Str)
    → has_char slash s ≡ false
    → split_on slash (s ++ (slash ∷ rest)) ≡ s ∷ split_on slash rest
unfolding split_on
split-append [] rest h = refl
split-append (c ∷ s) rest h = rw (split-append s rest (ground arith)) (ground arith)

split-part : (s : Str) → has_char slash s ≡ false → split_on slash s ≡ s ∷ []
unfolding split_on
split-part [] h = refl
split-part (c ∷ s) h = rw (split-part s (ground arith)) (ground arith)

split-join :
    (s : Str) (texts : List Str)
    → All IsPart (s ∷ texts)
    → split_on slash (join (slash ∷ []) (s ∷ texts)) ≡ s ∷ texts
unfolding join
split-join s [] ((hs, ns), h) = split-part s ns
split-join s (t ∷ texts) ((hs, ns), h) =
    split-append s _ ns ∙ ap (λ (l : List Str). s ∷ l) (split-join t texts h)

keep-All : (texts : List Str) → All IsPart texts → keep_names texts ≡ texts
keep-All [] h = refl
keep-All (s ∷ texts) ((hs, ns), h) = rw (hs, keep-All texts h)

names-join :
    (texts : List Str)
    → All IsPart texts
    → keep_names (split_on slash (join (slash ∷ []) texts)) ≡ texts
names-join [] h = unfold split_on join in refl
names-join (s ∷ texts) h = rw (split-join s texts h) (keep-All (s ∷ texts) h)

join-cons :
    (c : ℕ) (s : Str) (texts : List Str)
    → (rest : Str) × (join (slash ∷ []) ((c ∷ s) ∷ texts) ≡ c ∷ rest)
unfolding join
join-cons c s [] = (s, refl)
join-cons c s (t ∷ texts) = (s ++ (slash ∷ join (slash ∷ []) (t ∷ texts)), refl)

path_root-slash :
    (c : ℕ) (rest : Str) → (c == slash) ≡ false → path_root (slash ∷ c ∷ rest) ≡ slash ∷ []
path_root-slash c [] h = ground arith
path_root-slash c (d ∷ rest) h = ground arith

path_root-slashes :
    (c : ℕ) (rest : Str)
    → (c == slash) ≡ false
    → path_root (slash ∷ slash ∷ c ∷ rest) ≡ slash ∷ slash ∷ []
path_root-slashes c rest h = ground arith

path_root-one :
    (names : List Str) → All IsPart names → path_root (slash ∷ join (slash ∷ []) names) ≡ slash ∷ []
path_root-one [] h = unfold join in refl
path_root-one ([] ∷ names) ((hs, ns), h) = cc
path_root-one ((c ∷ s) ∷ names) ((hs, ns), h) =
    let (rest, e) = join-cons c s names in rw e (path_root-slash c rest (ground arith))

path_root-two :
    (names : List Str)
    → All IsPart names
    → path_root (slash ∷ slash ∷ join (slash ∷ []) names) ≡ slash ∷ slash ∷ []
path_root-two [] h = unfold join in refl
path_root-two ([] ∷ names) ((hs, ns), h) = cc
path_root-two ((c ∷ s) ∷ names) ((hs, ns), h) =
    let (rest, e) = join-cons c s names in rw e (path_root-slashes c rest (ground arith))

text-rooted :
    (root : Str) (names : List Str)
    → (root ≡ slash ∷ []) ⊎ (root ≡ slash ∷ slash ∷ [])
    → All IsPart names
    → (path_root (root ++ join (slash ∷ []) names) ≡ root)
      × (keep_names (split_on slash (root ++ join (slash ∷ []) names)) ≡ names)
text-rooted root names (inl e) h =
    rw e (path_root-one names h, unfold split_on in names-join names h)
text-rooted root names (inr e) h =
    rw e (path_root-two names h, unfold split_on in names-join names h)

pub absolute-root :
    (p : PurePath)
    → IsPath p
    → is_absolute p ≡ true
    → (p.root ≡ slash ∷ []) ⊎ (p.root ≡ slash ∷ slash ∷ [])
unfolding is_absolute
absolute-root p valid absolute = ground arith

pub path_text-absolute :
    (p : PurePath) → is_absolute p ≡ true → path_text p ≡ p.root ++ join (slash ∷ []) p.names
unfolding path_text is_absolute
path_text-absolute p absolute = ground arith

-- The text of an absolute path is read back as that path.
pub pure_path-text : (p : PurePath) → IsPath p → is_absolute p ≡ true → pure_path (path_text p) ≡ p
unfolding pure_path
pure_path-text p valid absolute =
    let (roots, names) = text-rooted p.root p.names (absolute-root p valid absolute) valid.names in
    rw (path_text-absolute p absolute) (λ i. record { root = roots i; names = names i })

-- ===== src/Devices/Registry/Spelling.antt =====
-- Spellings of one name, and what `_normalize` of cli_tool/devices/registry.py makes of them.
use device_cli_tool.Base.{
  ℕ, ◌+◌, ◌≤◌, Bool, true, false, ◌≡◌, ◌⊎◌, inl, inr, refl, sym, ap, arith, [], ◌∷◌, ◌++◌,
  Bool-cases,
}
use device_cli_tool.Text.{
  Str, strip, is_space, drop_while, drop_while_end, keep_unless_last, casefold, lower_char,
}
use device_cli_tool.Devices.Registry.{normalize}

-- The same character, or the upper and the lower case of an ASCII letter.
abbrev pub SameLetter : ℕ → ℕ → Type 0
SameLetter c d =
    (c ≡ d) ⊎ ((b'A' ≤ c) × (c ≤ b'Z') × (d ≡ c + 32)) ⊎ ((b'A' ≤ d) × (d ≤ b'Z') × (c ≡ d + 32))

pub data SameLetters : Str → Str → Type 0 where
  ends : SameLetters [] []
  letter : {s t : Str} (c d : ℕ) → SameLetter c d → SameLetters s t → SameLetters (c ∷ s) (d ∷ t)

-- Texts that differ in the case of letters and in outer white space only.
pub data Respelled : Str → Str → Type 0 where
  letters : {s t : Str} → SameLetters s t → Respelled s t
  space_before : {s t : Str} (c : ℕ) → is_space c ≡ true → Respelled s t → Respelled (c ∷ s) t
  space_behind :
      {s t : Str} (c : ℕ) → is_space c ≡ true → Respelled s t → Respelled (s ++ (c ∷ [])) t
  turned : {s t : Str} → Respelled s t → Respelled t s

same_space : (c d : ℕ) → SameLetter c d → is_space c ≡ is_space d
unfolding is_space
same_space c d (inl e) = rw e refl
same_space c d (inr (inl (lo, hi, e))) = rw e (ground arith)
same_space c d (inr (inr (lo, hi, e))) = rw e (ground arith)

same_lower : (c d : ℕ) → SameLetter c d → lower_char c ≡ lower_char d
same_lower c d h = ground arith

casefold-SameLetters : {s t : Str} → SameLetters s t → casefold s ≡ casefold t
unfolding casefold
casefold-SameLetters ends = refl
casefold-SameLetters (letter c d h hs) = rw (same_lower c d h, casefold-SameLetters hs) refl

drop-SameLetters :
    {s t : Str} → SameLetters s t → SameLetters (drop_while is_space s) (drop_while is_space t)
drop-SameLetters ends = ends
drop-SameLetters (letter c d h hs) = elim (Bool-cases (is_space d)) [
  | inl space ↦ rw (same_space c d h, space) (drop-SameLetters hs)
  | inr other ↦ rw (same_space c d h, other) (letter c d h hs)
]

keep-SameLetters :
    (b : Bool) (c d : ℕ) {s t : Str}
    → SameLetter c d
    → SameLetters s t
    → SameLetters (keep_unless_last b c s) (keep_unless_last b d t)
keep-SameLetters true c d h ends = ends
keep-SameLetters true c d h (letter c' d' h' hs) = letter c d h (letter c' d' h' hs)
keep-SameLetters false c d h hs = letter c d h hs

drop_end-SameLetters :
    {s t : Str}
    → SameLetters s t
    → SameLetters (drop_while_end is_space s) (drop_while_end is_space t)
drop_end-SameLetters ends = ends
drop_end-SameLetters (letter c d h hs) =
    rw (same_space c d h) (keep-SameLetters (is_space d) c d h (drop_end-SameLetters hs))

strip-SameLetters : {s t : Str} → SameLetters s t → SameLetters (strip s) (strip t)
unfolding strip
strip-SameLetters h = drop_end-SameLetters (drop-SameLetters h)

drop_end-space :
    (s : Str) (c : ℕ)
    → is_space c ≡ true
    → drop_while_end is_space (s ++ (c ∷ [])) ≡ drop_while_end is_space s
drop_end-space [] c h = rw h refl
drop_end-space (a ∷ s) c h = ap (keep_unless_last (is_space a) a) (drop_end-space s c h)

strip-space_behind : (s : Str) (c : ℕ) → is_space c ≡ true → strip (s ++ (c ∷ [])) ≡ strip s
unfolding strip
strip-space_behind [] c h = rw h refl
strip-space_behind (a ∷ s) c h = elim (Bool-cases (is_space a)) [
  | inl space ↦ rw space (strip-space_behind s c h)
  | inr other ↦ rw other (drop_end-space (a ∷ s) c h)
]

strip-space_before : (s : Str) (c : ℕ) → is_space c ≡ true → strip (c ∷ s) ≡ strip s
unfolding strip
strip-space_before s c h = rw h refl

pub normalize-Respelled : {s t : Str} → Respelled s t → normalize s ≡ normalize t
unfolding normalize
normalize-Respelled (letters h) = casefold-SameLetters (strip-SameLetters h)
normalize-Respelled (space_before {s = s} c space h) =
    rw (strip-space_before s c space) (normalize-Respelled h)
normalize-Respelled (space_behind {s = s} c space h) =
    rw (strip-space_behind s c space) (normalize-Respelled h)
normalize-Respelled (turned h) = sym (normalize-Respelled h)

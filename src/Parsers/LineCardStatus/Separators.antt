-- ===== src/Parsers/LineCardStatus/Separators.antt =====
-- The lines between the rows of the table, and the texts between its columns.
use device_cli_tool.Base.{
  Bool, ℕ, ◌-◌, zero, suc, true, false, not, ◌&&◌, ◌||◌, ◌≡◌, ◌≢◌, ◌↔◌, ◌⊎◌, refl, sym, arith, [],
  ◌∷◌, take, drop, all, All, Bool-cases, inl, inr, is_empty,
}
use device_cli_tool.Text.{Str, strip, is_space}
use device_cli_tool.Parsers.LineCardStatus.{is_separator_char, is_skipped}

-- A line of white space and the characters `=`, `+`, `|`, `:` and `-`; an empty line is one.
abbrev pub Separates : ℕ → Type 0
Separates c = (is_space c ≡ true) ⊎ (c ≡ b'=') ⊎ (c ≡ b'+') ⊎ (c ≡ b'|') ⊎ (c ≡ b':') ⊎ (c ≡ b'-')

abbrev pub IsSeparator : Str → Type 0
IsSeparator line = All Separates line

Separates-iff : (c : ℕ) → (is_separator_char c ≡ true) ↔ Separates c
Separates-iff c = ground arith

strip-blank : (line : Str) → is_empty (strip line) ≡ true → IsSeparator line
unfolding strip
strip-blank [] h = tt
strip-blank (c ∷ s) h = elim (Bool-cases (is_space c)) [
  | inl space ↦ (inl space, strip-blank s (ground (arith, h, space)))
  | inr letter ↦ absurd (ground (arith, h, letter))
]

all_iff : (line : Str) → (all is_separator_char line ≡ true) ↔ IsSeparator line
all_iff [] = (λ h. tt, λ h. refl)
all_iff (c ∷ s) = (
  λ h. ((Separates-iff c).0 (ground (arith, h)), (all_iff s).0 (ground (arith, h))),
  λ (hc, hs). ground (arith, (Separates-iff c).1 hc, (all_iff s).1 hs),
)

blank_or_all :
    (blank : Bool) (line : Str)
    → (blank ≡ true → IsSeparator line)
    → (blank || not (is_empty line) && all is_separator_char line) ≡ true
    → IsSeparator line
blank_or_all true line is_blank h = is_blank refl
blank_or_all false [] is_blank h = tt
blank_or_all false (c ∷ s) is_blank h = (all_iff (c ∷ s)).0 h

pub is_skipped→separator : (line : Str) → is_skipped line ≡ true → IsSeparator line
unfolding is_skipped
is_skipped→separator line h = blank_or_all (is_empty (strip line)) line (strip-blank line) h

pub separator→is_skipped : (line : Str) → IsSeparator line → is_skipped line ≡ true
unfolding is_skipped strip
separator→is_skipped [] h = refl
separator→is_skipped (c ∷ s) h = ground (arith, (all_iff (c ∷ s)).1 h)

pub nonempty : (s : Str) → is_empty s ≡ false → s ≢ []
nonempty s h e = ground (arith, h, e)

pub not_empty : (s : Str) → s ≢ [] → is_empty s ≡ false
not_empty [] h = absurd (h refl)
not_empty (c ∷ s) h = refl

take-nil : {s : Str} (n : ℕ) → s ≡ [] → take n s ≡ []
take-nil zero e = refl
take-nil (suc n) e = rw e refl

-- Cutting the end first, or the beginning first.
pub drop-take : (m n : ℕ) (s : Str) → drop m (take n s) ≡ take (n - m) (drop m s)
drop-take zero n s = let e : n - 0 ≡ n = omega arith in rw e refl
drop-take (suc m) zero s = let e : 0 - suc m ≡ 0 = omega arith in rw e refl
drop-take (suc m) (suc n) [] = sym (take-nil {s = []} (suc n - suc m) refl)
drop-take (suc m) (suc n) (c ∷ s) =
    let e : suc n - suc m ≡ n - m = omega arith in rw e (drop-take m n s)

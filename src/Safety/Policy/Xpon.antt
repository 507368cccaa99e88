-- ===== src/Safety/Policy/Xpon.antt =====
-- The protected command sequence: exactly one is accepted for each target.
use device_cli_tool.Base.{
  ℕ, zero, suc, ◌≤◌, ◌<◌, Bool, true, List, [], ◌∷◌, ◌≡◌, refl, arith, ◌↔◌, ok, is_ok, all,
}
use device_cli_tool.Text.{Str, decimal}
use device_cli_tool.Text.Laws.{str_eq→eq, str_eq_refl}
use device_cli_tool.Safety.Policy.{
  Number, int, expected_commands, check_allowlist, validate_xpon_target,
  validate_xpon_mutation_commands, texts_eq, in_range, negative, bool, object,
}

-- n - 1, ..., 1, 0
below : ℕ → List ℕ
below zero = []
below (suc n) = n ∷ below n

-- A test that was run on every number below `n` holds of each.
all-below : (p : ℕ → Bool) (x n : ℕ) → x < n → all p (below n) ≡ true → p x ≡ true
unfolding below
all-below p x zero lt tested = absurd (omega arith)
all-below p x (suc n) lt tested = ground (arith, all-below p x n)

abbrev passes : ℕ → ℕ → Bool
passes s p =
    is_ok
      (check_allowlist (expected_commands (int (suc s)) (int (suc p))) (int (suc s)) (int (suc p)))

table : all (λ s. all (passes s) (below 16)) (below 64) ≡ true
unfolding below check_allowlist decimal
table = refl

texts_eq→eq : (ss ts : List Str) → texts_eq ss ts ≡ true → ss ≡ ts
texts_eq→eq [] [] h = refl
texts_eq→eq [] (t ∷ ts) h = cc
texts_eq→eq (s ∷ ss) [] h = cc
texts_eq→eq (s ∷ ss) (t ∷ ts) h = ground (arith, str_eq→eq s t, texts_eq→eq ss ts)

texts_eq_refl : (ts : List Str) → texts_eq ts ts ≡ true
texts_eq_refl [] = refl
texts_eq_refl (t ∷ ts) = ground (arith, str_eq_refl t, texts_eq_refl ts)

check_expected :
    (s p : ℕ)
    → 1 ≤ s
    → s ≤ 64
    → 1 ≤ p
    → p ≤ 16
    → is_ok (check_allowlist (expected_commands (int s) (int p)) (int s) (int p)) ≡ true
check_expected zero p hs hs' hp hp' = absurd (omega arith)
check_expected (suc s) zero hs hs' hp hp' = absurd (omega arith)
check_expected (suc s) (suc p) hs hs' hp hp' =
    all-below (passes s) p 16 (omega arith)
      (all-below (λ s. all (passes s) (below 16)) s 64 (omega arith) table)

-- A target in range, written as numbers.
abbrev pub InRange : Number → Number → Type 0
InRange (int s) (int p) = (1 ≤ s) × (s ≤ 64) × (1 ≤ p) × (p ≤ 16)
InRange _ _ = ⊥

InRange-in_range :
    (slot port : Number) → in_range slot 64 ≡ true → in_range port 16 ≡ true → InRange slot port
InRange-in_range (int s) (int p) hs hp = ground arith
InRange-in_range (int s) (negative p) hs hp = cc
InRange-in_range (int s) (bool p) hs hp = cc
InRange-in_range (int s) (object p) hs hp = cc
InRange-in_range (negative s) port hs hp = cc
InRange-in_range (bool s) port hs hp = cc
InRange-in_range (object s) port hs hp = cc

passed :
    (commands : List Str) (slot port : Number)
    → is_ok (validate_xpon_mutation_commands commands slot port) ≡ true
    → (in_range slot 64 ≡ true)
      × (in_range port 16 ≡ true)
      × (texts_eq commands (expected_commands slot port) ≡ true)
unfolding validate_xpon_mutation_commands validate_xpon_target
passed commands slot port h = ground arith

accepted :
    (slot port : Number)
    → InRange slot port
    → validate_xpon_mutation_commands (expected_commands slot port) slot port
      ≡ ok (expected_commands slot port)
unfolding validate_xpon_mutation_commands validate_xpon_target
accepted (int s) (int p) (hs, hs', hp, hp') =
    rw (texts_eq_refl (expected_commands (int s) (int p)))
      (ground (arith, check_expected s p hs hs' hp hp'))
accepted (int s) (negative p) h = absurd h
accepted (int s) (bool p) h = absurd h
accepted (int s) (object p) h = absurd h
accepted (negative s) port h = absurd h
accepted (bool s) port h = absurd h
accepted (object s) port h = absurd h

-- The guard passes exactly the protected sequence of the target, for an integer slot from 1 to 64
-- and an integer port from 1 to 16, and returns it: the loop behind the comparison refuses nothing
-- that the comparison passed.
pub validate_xpon_iff :
    (commands : List Str) (slot port : Number)
    → (validate_xpon_mutation_commands commands slot port ≡ ok commands)
      ↔ (InRange slot port × (commands ≡ expected_commands slot port))
validate_xpon_iff commands slot port = (
  λ h.
      let (hs, hp, same) = passed commands slot port (rw h refl) in
      (InRange-in_range slot port hs hp, texts_eq→eq commands (expected_commands slot port) same),
  λ h. rw h.1 (accepted slot port h.0),
)

-- What passes is returned as it was given.
pub validated_same :
    (commands : List Str) (slot port : Number) (result : List Str)
    → validate_xpon_mutation_commands commands slot port ≡ ok result
    → result ≡ commands
unfolding validate_xpon_mutation_commands
validated_same commands slot port result h = ground arith

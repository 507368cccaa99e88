-- ===== src/Ssh/Tokens/Acquired.antt =====
-- What `acquire` takes, and when it gives up.
use mathlib.Core.Path.{subst}
use device_cli_tool.Base.{
  ◌≢◌, true, ℕ, zero, suc, ◌+◌, ◌≤◌, ◌<◌, Bool, false, ◌≡◌, ◌⊎◌, refl, arith, Option, none, some,
  List, [], ◌∷◌, ◌==◌, is_none, Result, ok, err, Bool-cases, Option-cases, inl, inr, All,
  timeout_error,
}
use device_cli_tool.Ssh.Tokens.{
  Token, Content, no_pid, is_stale, unless_stale, unreadable, owned_by, Directory, remove_stale,
  first_free, created, attempt, or_later, acquire,
}

-- `index` is free, and it is the first from `start` on.
first_free_lem :
    (alive : ℕ → Bool) (self count start index : ℕ) (d : Directory)
    → first_free alive self count start d ≡ some index
    → (start ≤ index) × (index < start + count) × (d index ≡ none)
unfolding first_free
first_free_lem alive self zero start index d h = cc
first_free_lem alive self (suc count) start index d h = elim (Option-cases (d start)) [
  | inl free ↦ ground arith
  | inr (t, taken) ↦ ground (arith, first_free_lem alive self count (suc start) index d)
]

-- No index is free.
first_free-none :
    (alive : ℕ → Bool) (self count start : ℕ) (d : Directory)
    → first_free alive self count start d ≡ none
    → (index : ℕ) → start ≤ index
    → index < start + count
    → is_none (d index) ≡ false
unfolding first_free
first_free-none alive self zero start d h index lo hi = absurd (omega arith)
first_free-none alive self (suc count) start d h index lo hi = elim (Bool-cases (start == index)) [
  | inl here ↦ ground arith
  | inr behind ↦
      first_free-none alive self count (suc start) d (ground arith) index (ground arith)
        (omega arith)
]

module _ (alive : ℕ → Bool) (self creator max_tokens : ℕ) where
  -- A file that is swept: it cannot be read, or it names another process, which does not live.
  abbrev pub IsStale : Content → Type 0
  IsStale unreadable = Unit
  IsStale no_pid = ⊥
  IsStale (owned_by pid) = (pid ≢ self) × (alive pid ≡ false)

  -- What a sweep makes of one name.
  pub data Swept : Option Token → Option Token → Type 0 where
    missing : Swept none none
    removed : (t : Token) → IsStale t.content → Swept (some t) none
    kept : (t : Token) → ¬ IsStale t.content → Swept (some t) (some t)

  -- The pass that found `d` took the token `index` and left `d'`.
  pub record IsTaken (d : Directory) (index : ℕ) (d' : Directory) : Type 0 where
    pub in_range : index < max_tokens
    pub was_free : Swept (d index) none
    pub is_ours : d' index ≡ some (record { creator = creator; content = owned_by self })
    pub others : (j : ℕ) → j ≢ index → Swept (d j) (d' j)

  -- Every name is taken by a file that is not stale.
  abbrev pub IsFull : Directory → Type 0
  IsFull d =
      (index : ℕ) → index < max_tokens → (t : Token) × (d index ≡ some t) × (¬ IsStale t.content)

  abbrev pub TakenIn : ℕ → Directory → List Directory → Type 0
  TakenIn index d' [] = ⊥
  TakenIn index d' (d ∷ ds) = IsTaken d index d' ⊎ TakenIn index d' ds

  -- `acquire` fails, or it has taken a token in one of the passes.
  abbrev pub Acquires : List Directory → Result (ℕ × Directory) → Type 0
  Acquires ds (ok (index, d')) = TakenIn index d' ds
  Acquires ds (err e) = All IsFull ds

  stale_lem : (c : Content) → is_stale alive self c ≡ true → IsStale c
  stale_lem unreadable h = tt
  stale_lem no_pid h = cc
  stale_lem (owned_by pid) h = ground (arith, h)

  not_stale_lem : (c : Content) → is_stale alive self c ≡ false → ¬ IsStale c
  not_stale_lem unreadable h stale = cc
  not_stale_lem no_pid h stale = stale
  not_stale_lem (owned_by pid) h (differs, dead) = ground (arith, h, differs, dead)

  file-Swept : (o : Option Token) → Swept o (unless_stale alive self o)
  file-Swept none = missing
  file-Swept (some t) = elim (Bool-cases (is_stale alive self t.content)) [
    | inl h ↦ rw h (removed t (stale_lem t.content h))
    | inr h ↦ rw h (kept t (not_stale_lem t.content h))
  ]

  full_lem :
      (o : Option Token)
      → is_none (unless_stale alive self o) ≡ false
      → (t : Token) × (o ≡ some t) × (¬ IsStale t.content)
  full_lem none h = absurd (ground (arith, h))
  full_lem (some t) h = elim (Bool-cases (is_stale alive self t.content)) [
    | inl stale ↦ absurd (ground (arith, h, stale))
    | inr living ↦ (t, refl, not_stale_lem t.content living)
  ]

  remove_stale-Swept : (d : Directory) (j : ℕ) → Swept (d j) (remove_stale alive self d j)
  unfolding remove_stale
  remove_stale-Swept d j = file-Swept (d j)

  remove_stale-full :
      (d : Directory) (j : ℕ)
      → is_none (remove_stale alive self d j) ≡ false
      → (t : Token) × (d j ≡ some t) × (¬ IsStale t.content)
  unfolding remove_stale
  remove_stale-full d j h = full_lem (d j) h

  elsewhere : (index j : ℕ) → j ≢ index → (index == j) ≡ false
  elsewhere index j ne = ground arith

  created_lem :
      (d : Directory) (free : Option ℕ)
      → first_free alive self max_tokens 0 (remove_stale alive self d) ≡ free
      → (later : Result (ℕ × Directory)) (ds : List Directory) → Acquires ds later
      → Acquires (d ∷ ds) (
          or_later alive self creator max_tokens
            (created alive self creator max_tokens free (remove_stale alive self d))
            later)
  created_lem d none h (ok (index, d')) ds next = inr next
  created_lem d none h (err e) ds next = (
    λ index lt. remove_stale-full d index (
        first_free-none alive self max_tokens 0 (remove_stale alive self d) h index (omega arith)
          (omega arith)),
    next,
  )
  created_lem d (some index) h later ds next =
      let (lo, hi, free) =
        first_free_lem alive self max_tokens 0 index (remove_stale alive self d) h in
      inl (record {
        in_range = omega arith;
        was_free =
            subst (λ (o : Option Token). Swept (d index) o) free (remove_stale-Swept d index);
        is_ours = ground arith;
        others = λ j ne. rw (elsewhere index j ne) (remove_stale-Swept d j);
      })

  -- `acquire` returns an index below `max_tokens` whose file was missing or stale in the directory that
  -- one of its passes found; its file is there then, with the process's number, and of the other files
  -- the stale ones are gone and all the others untouched. If it raises, then in every pass all names
  -- were taken by files that were not stale. Stale is a file that cannot be read, or that names another
  -- process, which does not live.
  pub acquire-Acquires :
      (d : Directory) (ds : List Directory)
      → Acquires (d ∷ ds) (acquire alive self creator max_tokens d ds)
  unfolding acquire attempt
  acquire-Acquires d [] =
      created_lem d (first_free alive self max_tokens 0 (remove_stale alive self d)) refl
        (err (timeout_error "waiting for SSH token timed out")) [] tt
  acquire-Acquires d (next ∷ passes) =
      created_lem d (first_free alive self max_tokens 0 (remove_stale alive self d)) refl
        (acquire alive self creator max_tokens next passes) (next ∷ passes)
        (acquire-Acquires next passes)

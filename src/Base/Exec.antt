-- ===== src/Base/Exec.antt =====
-- Code that changes a state and may raise: the state comes back beside the error too. Opening
-- `◌>>=◌` opens every way to build an action.
pub mod Triples
pub mod Keeps
use device_cli_tool.Base.Errors.{Error, Result, ok, err}

abbrev pub Exec {ℓ} : Type ℓ → Type ℓ → Type ℓ
Exec S A = S → Result A × S

module _ {ℓ} {S A : Type ℓ} where
  pub gets : (S → A) → Exec S A
  gets read state = (ok (read state), state)

  pub raise : Error → Exec S A
  raise error state = (err error, state)

  pub pure : A → Exec S A
  pure value state = (ok value, state)

  -- A call that does not touch the state.
  pub lift : Result A → Exec S A
  lift result state = (result, state)

pub modify : {S : Type 0} → (S → S) → Exec S (Unit {0})
modify f s = (ok tt, f s)

module _ {ℓ} {S A B : Type ℓ} where
  abbrev pub after_finally : Result A → Result B × S → Result A × S
  after_finally r (ok b, s) = (r, s)
  after_finally r (err e, s) = (err e, s)

  -- `try: m finally: fin`. An exception of `fin` replaces the outcome of `m`.
  pub try_finally : Exec S A → Exec S B → Exec S A
  try_finally m fin s = let (r, s') = m s in after_finally r (fin s')

  abbrev pub rethrow : Error → Result B × S → Result A × S
  rethrow e (ok b, s) = (err e, s)
  rethrow e (err e', s) = (err e', s)

  abbrev pub after_except : Result A → Exec S B → S → Result A × S
  after_except (ok a) handler s = (ok a, s)
  after_except (err e) handler s = rethrow e (handler s)

  -- `try: m except Exception: handler; raise`
  pub try_reraise : Exec S A → Exec S B → Exec S A
  try_reraise m handler s = let (r, s') = m s in after_except r handler s'

module _ {ℓ} {S A : Type ℓ} where
  abbrev pub handle : Result A → (Error → Exec S A) → S → Result A × S
  handle (ok a) handler s = (ok a, s)
  handle (err e) handler s = handler e s

  -- `try: m except ...: handler`, where the handler raises again what it does not catch.
  pub try_except : Exec S A → (Error → Exec S A) → Exec S A
  try_except m handler s = let (r, s') = m s in handle r handler s'

-- `try: m except Exception: pass`
pub ignore_errors : {S A : Type 0} → Exec S A → Exec S (Unit {0})
ignore_errors m s = let (r, s') = m s in (ok tt, s')

module _ {ℓ} {S A B : Type ℓ} where
  abbrev pub continue : Result A → (A → Exec S B) → Exec S B
  continue (ok value) rest state = rest value state
  continue (err error) rest state = (err error, state)

  infixl 5 ◌>>=◌ ◌>>◌
  unfoldable pub ◌>>=◌ : Exec S A → (A → Exec S B) → Exec S B
  unfolding ignore_errors try_except try_reraise try_finally modify lift pure raise gets
  ◌>>=◌ first rest state = let (result, after) = first state in continue result rest after

  abbrev pub ◌>>◌ : Exec S A → Exec S B → Exec S B
  ◌>>◌ first rest = first >>= λ _. rest

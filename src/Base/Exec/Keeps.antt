-- ===== src/Base/Exec/Keeps.antt =====
-- Actions that leave a property of the state true, whether they return or raise: a triple with the same
-- property at its three places. The rules go through the statements of a body one by one.
use mathlib.Core.Path.{◌≡◌, refl}
use mathlib.Core.Bool.{Bool, true, false}
use device_cli_tool.Base.Booleans.{if◌then◌else◌}
use device_cli_tool.Base.Errors.{Error, Result, ok, err}
use device_cli_tool.Base.Exec.{
  Exec, pure, raise, lift, gets, ◌>>=◌, try_finally, try_reraise, try_except, ignore_errors,
  after_finally,
}
use device_cli_tool.Base.Exec.Triples.{
  Ends, Triple, Triple-bind, Triple-gets, Triple-pure, Triple-raise, Triple-try_except,
  Triple-try_reraise,
}

pub record Keeps {S A : Type 0} (P : S → Type 0) (action : Exec S A) : Type 0 where
  pub triple : Triple P action (λ _. P) P

module _ {S A : Type 0} (P : S → Type 0) where
  Ends-both : (r : Result A) (s : S) → P s → Ends (λ _. P) P (r, s)
  Ends-both (ok a) s holds = holds
  Ends-both (err e) s holds = holds

  pub both-Ends : (r : Result A) (s : S) → Ends (λ _. P) P (r, s) → P s
  both-Ends (ok a) s holds = holds
  both-Ends (err e) s holds = holds

  weaker-Ends :
      (E : S → Type 0) (r : Result A) (s : S)
      → ((s : S) → P s → E s)
      → Ends (λ _. P) P (r, s)
      → Ends (λ _. P) E (r, s)
  weaker-Ends E (ok a) s weaker holds = holds
  weaker-Ends E (err e) s weaker holds = weaker s holds

module _ {S A : Type 0} {P : S → Type 0} where
  -- By what it does with each state.
  pub Keeps-of : (action : Exec S A) → ((s : S) → P s → P (action s).1) → Keeps P action
  Keeps-of action kept = record {
    triple = record { at = λ s h. let (r, s') = action s in Ends-both P r s' (kept s h) };
  }

  pub Keeps-at : (action : Exec S A) → Keeps P action → (s : S) → P s → P (action s).1
  Keeps-at action kept s holds = let (r, s') = action s in both-Ends P r s' (kept.triple.at s holds)

  -- In a triple with a weaker end for errors.
  pub Triple-Keeps :
      {E : S → Type 0} (action : Exec S A)
      → ((s : S) → P s → E s)
      → Keeps P action
      → Triple P action (λ _. P) E
  Triple-Keeps {E = E} action weaker kept = record {
    at = λ s holds. let (r, s') = action s in weaker-Ends P E r s' weaker (kept.triple.at s holds);
  }

  pub Keeps-try_except :
      (body : Exec S A) (handler : Error → Exec S A)
      → Keeps P body
      → ((e : Error) → Keeps P (handler e))
      → Keeps P (try_except body handler)
  Keeps-try_except body handler kept handled = record {
    triple = Triple-try_except body handler kept.triple (λ e. (handled e).triple);
  }

  pub Keeps-ignore_errors : (action : Exec S A) → Keeps P action → Keeps P (ignore_errors action)
  unfolding ignore_errors
  Keeps-ignore_errors action kept = record { triple = record { at = Keeps-at action kept } }

  pub Keeps-gets : (f : S → A) → Keeps P (gets f)
  Keeps-gets f = record { triple = Triple-gets f (λ _. P) }

  pub Keeps-raise : (e : Error) → Keeps P (raise {A = A} e)
  Keeps-raise e = record { triple = Triple-raise P e (λ _ h. h) (λ _. P) }

  pub Keeps-pure : (value : A) → Keeps P (pure value)
  Keeps-pure value = record { triple = Triple-pure value (λ _. P) }

  pub Keeps-lift : (r : Result A) → Keeps P (lift r)
  unfolding lift
  Keeps-lift r = Keeps-of (lift r) (λ _ h. h)

module _ {S A B : Type 0} where
  state_after_finally : (r : Result A) (q : Result B) (s : S) → (after_finally r (q, s)).1 ≡ s
  state_after_finally r (ok b) s = refl
  state_after_finally r (err e) s = refl

module _ {S A B : Type 0} {P : S → Type 0} where
  pub Keeps-bind :
      (first : Exec S A) (next : A → Exec S B)
      → Keeps P first
      → ((value : A) → Keeps P (next value))
      → Keeps P (first >>= next)
  Keeps-bind first next kept then_kept = record {
    triple = Triple-bind first next kept.triple (λ value. (then_kept value).triple);
  }

  -- Where what follows may use that the call returned.
  pub Keeps-lift_bind :
      (r : Result A) (next : A → Exec S B)
      → ((value : A) → r ≡ ok value → Keeps P (next value))
      → Keeps P (lift r >>= next)
  unfolding lift ◌>>=◌
  Keeps-lift_bind (ok value) next kept =
      Keeps-of _ (λ s h. Keeps-at (next value) (kept value refl) s h)
  Keeps-lift_bind (err e) next kept = Keeps-of _ (λ s h. h)

  pub Keeps-try_reraise :
      (body : Exec S A) (handler : Exec S B)
      → Keeps P body
      → Keeps P handler
      → Keeps P (try_reraise body handler)
  Keeps-try_reraise body handler kept handled = record {
    triple = Triple-try_reraise body handler kept.triple (Keeps-at handler handled);
  }

  pub Keeps-try_finally :
      (body : Exec S A) (last : Exec S B)
      → Keeps P body
      → Keeps P last
      → Keeps P (try_finally body last)
  unfolding try_finally
  Keeps-try_finally body last kept last_kept = Keeps-of (try_finally body last) λ s h.
      let (r, s') = body s in
      let (q, s2) = last s' in
      rw (state_after_finally r q s2) (Keeps-at last last_kept s' (Keeps-at body kept s h))

module _ {S A B : Type 0} (P : S → Type 0) where
  -- What the last action leaves, the whole leaves.
  pub finally_leaves :
      (body : Exec S A) (last : Exec S B)
      → ((s : S) → P (last s).1)
      → (s : S) → P (try_finally body last s).1
  unfolding try_finally
  finally_leaves body last leaves s =
      let (r, s') = body s in let (q, s2) = last s' in rw (state_after_finally r q s2) (leaves s')

module _ {S : Type 0} {P : S → Type 0} where
  -- `if not b: raise e`
  pub Keeps-require :
      (b : Bool) (e : Error) → Keeps P (if b then pure tt else raise {A = Unit {0}} e)
  Keeps-require true e = Keeps-pure tt
  Keeps-require false e = Keeps-raise e

pub ruleset keeps_rules = (
  Keeps-try_except, Keeps-try_reraise, Keeps-try_finally, Keeps-bind, Keeps-gets, Keeps-lift,
  Keeps-pure, Keeps-raise, Keeps-ignore_errors,
)

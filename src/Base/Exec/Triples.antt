-- ===== src/Base/Exec/Triples.antt =====
-- What holds after an action: `Q` of what it returned and the state, or `E` of the state when it
-- raised.
use mathlib.Core.Path.{◌≡◌, refl}
use mathlib.Core.Bool.{Bool, true, false}
use device_cli_tool.Base.Booleans.{if◌then◌else◌}
use device_cli_tool.Base.Errors.{Error, Result, ok, err}
use device_cli_tool.Base.Exec.{
  Exec, pure, raise, lift, gets, ◌>>=◌, try_reraise, try_except, continue, after_except, rethrow,
  handle,
}

abbrev pub Ends : {S A : Type 0} → (A → S → Type 0) → (S → Type 0) → Result A × S → Type 0
Ends Q E (ok a, s) = Q a s
Ends Q E (err e, s) = E s

pub record Triple {S A : Type 0} (P : S → Type 0) (m : Exec S A) (Q : A → S → Type 0)
    (E : S → Type 0) : Type 0 where
  pub at : (s : S) → P s → Ends Q E (m s)

module _ {S A : Type 0} {E : S → Type 0} where
  pub Triple-pure : (a : A) (Q : A → S → Type 0) → Triple (Q a) (pure a) Q E
  unfolding pure
  Triple-pure a Q = record { at = λ s h. h }

  pub Triple-raise :
      (P : S → Type 0) (e : Error)
      → ((s : S) → P s → E s)
      → (Q : A → S → Type 0) → Triple P (raise e) Q E
  unfolding raise
  Triple-raise P e PE Q = record { at = PE }

  pub Triple-gets : (f : S → A) (Q : A → S → Type 0) → Triple (λ s. Q (f s) s) (gets f) Q E
  unfolding gets
  Triple-gets f Q = record { at = λ s h. h }

  pub Triple-lift :
      (P : S → Type 0) (r : Result A)
      → ((s : S) → P s → E s)
      → Triple P (lift r) (λ a s. P s × (r ≡ ok a)) E
  unfolding lift
  Triple-lift P (ok a) PE = record { at = λ s h. (h, refl) }
  Triple-lift P (err e) PE = record { at = PE }

  pub Triple-assume :
      (P : S → Type 0) (m : Exec S A) (Q : A → S → Type 0) (Fact : Type 0)
      → (Fact → Triple P m Q E)
      → Triple (λ s. P s × Fact) m Q E
  Triple-assume P m Q Fact tm = record { at = λ s (h, fact). (tm fact).at s h }

  -- `if b: raise e`, and then `m`
  pub Triple-unless :
      (P : S → Type 0) (b : Bool) (e : Error) (m : Exec S A) (Q : A → S → Type 0)
      → ((s : S) → P s → E s)
      → Triple P m Q E
      → Triple P (if b then raise e else m) Q E
  unfolding raise
  Triple-unless P true e m Q PE tm = record { at = PE }
  Triple-unless P false e m Q PE tm = tm

module _ {S A : Type 0} {E : S → Type 0} where
  -- The same, where `m` may use that the test failed.
  pub Triple-unless_known :
      (P : S → Type 0) (b : Bool) (e : Error) (m : Exec S A) (Q : A → S → Type 0)
      → ((s : S) → P s → E s)
      → (b ≡ false → Triple P m Q E)
      → Triple P (if b then raise e else m) Q E
  unfolding raise
  Triple-unless_known P true e m Q PE tm = record { at = PE }
  Triple-unless_known P false e m Q PE tm = tm refl

module _ {S : Type 0} {E : S → Type 0} where
  -- `if b: raise e`
  pub Triple-check :
      (P : S → Type 0) (b : Bool) (e : Error)
      → ((s : S) → P s → E s)
      → Triple P (if b then raise e else pure tt) (λ _. P) E
  unfolding raise pure
  Triple-check P true e PE = record { at = PE }
  Triple-check P false e PE = record { at = λ s h. h }

module _ {S A B : Type 0} where
  continue_at :
      (Q : A → S → Type 0) (f : A → Exec S B) (Q' : B → S → Type 0) (E : S → Type 0) (r : Result A)
      (s : S)
      → ((a : A) → Triple (Q a) (f a) Q' E)
      → Ends Q E (r, s)
      → Ends Q' E (continue r f s)
  continue_at Q f Q' E (ok a) s tf h = (tf a).at s h
  continue_at Q f Q' E (err e) s tf h = h

  rethrow_at :
      (Q : A → S → Type 0) (E : S → Type 0) (e : Error) (q : Result B) (s : S)
      → E s
      → Ends Q E (rethrow {A = A} e (q, s))
  rethrow_at Q E e (ok b) s h = h
  rethrow_at Q E e (err e') s h = h

  after_except_at :
      (Q : A → S → Type 0) (E E' : S → Type 0) (handler : Exec S B) (r : Result A) (s : S)
      → ((s : S) → E s → E' (handler s).1)
      → Ends Q E (r, s)
      → Ends Q E' (after_except r handler s)
  after_except_at Q E E' handler (ok a) s th h = h
  after_except_at Q E E' handler (err e) s th h =
      let (q, s') = handler s in rethrow_at Q E' e q s' (th s h)

module _ {S A B : Type 0} {P : S → Type 0} {Q : A → S → Type 0} where
  pub Triple-bind :
      {Q' : B → S → Type 0} {E : S → Type 0} (m : Exec S A) (f : A → Exec S B)
      → Triple P m Q E
      → ((a : A) → Triple (Q a) (f a) Q' E)
      → Triple P (m >>= f) Q' E
  unfolding ◌>>=◌
  Triple-bind {Q' = Q'} {E = E} m f tm tf = record {
    at = λ s h. let (r, s') = m s in continue_at Q f Q' E r s' tf (tm.at s h);
  }

  -- The handler takes `E` to `E'`, whatever it returns.
  pub Triple-try_reraise :
      {E E' : S → Type 0} (m : Exec S A) (handler : Exec S B)
      → Triple P m Q E
      → ((s : S) → E s → E' (handler s).1)
      → Triple P (try_reraise m handler) Q E'
  unfolding try_reraise
  Triple-try_reraise {E = E} {E' = E'} m handler tm th = record {
    at = λ s h. let (r, s') = m s in after_except_at Q E E' handler r s' th (tm.at s h);
  }

module _ {S A : Type 0} {Q : A → S → Type 0} {E E' : S → Type 0} where
  handle_at :
      (handler : Error → Exec S A) (r : Result A) (s : S)
      → ((e : Error) → Triple E (handler e) Q E')
      → Ends Q E (r, s)
      → Ends Q E' (handle r handler s)
  handle_at handler (ok a) s th h = h
  handle_at handler (err e) s th h = (th e).at s h

  pub Triple-try_except :
      {P : S → Type 0} (m : Exec S A) (handler : Error → Exec S A)
      → Triple P m Q E
      → ((e : Error) → Triple E (handler e) Q E')
      → Triple P (try_except m handler) Q E'
  unfolding try_except
  Triple-try_except m handler tm th = record {
    at = λ s h. let (r, s') = m s in handle_at handler r s' th (tm.at s h);
  }

module _ {S A : Type 0} where
  unit-Ends : (r : Result A) (s : S) → Ends (λ _ _. Unit {0}) (λ _. Unit {0}) (r, s)
  unit-Ends (ok a) s = tt
  unit-Ends (err e) s = tt

  -- Nothing is asked of `m`.
  pub Triple-any : (m : Exec S A) → Triple (λ _. Unit {0}) m (λ _ _. Unit {0}) (λ _. Unit {0})
  Triple-any m = record { at = λ s h. let (r, s') = m s in unit-Ends r s' }

module _ {S A B : Type 0} (Q : Result B × S → Type 0) where
  -- By what a lifted result is.
  pub lift_cases :
      (r : Result A) (rest : A → Exec S B) (s : S)
      → ((e : Error) → Q (err e, s))
      → ((a : A) → r ≡ ok a → Q (rest a s))
      → Q ((lift r >>= rest) s)
  unfolding ◌>>=◌
  lift_cases (ok a) rest s raised returned = returned a refl
  lift_cases (err e) rest s raised returned = raised e

-- ===== src/Exec/Yields.antt =====
-- What holds of every value that an action returns, one rule for each way to build an action.
use sre_agent_workshop.Prelude.{
  ◌≡◌, refl, Bool, true, false, Option, none, some, inl, inr, if◌then◌else◌, Bool-cases,
}
use sre_agent_workshop.Exec.{
  Exec, Error, Result, ok, err, pure, raise, raise_if, or_raise, continue, handle, try_except,
  ◌>>=◌,
}

pub record Yields {W A : Type 0} (P : A → Type 0) (m : Exec W A) : Type 0 where
  pub at : (w : W) (a : A) → (m w).0 ≡ ok a → P a

-- The predicate that says nothing.
abbrev pub Anything : {A : Type 0} → A → Type 0
Anything _ = Unit

clash : {A : Type 0} {x : Error} {a : A} → err x ≡ ok a → ⊥
clash e = cc

module _ {W A : Type 0} {P : A → Type 0} where
  pub Yields-pure : (a : A) → P a → Yields {W = W} P (pure a)
  Yields-pure a p = record { at = λ w b e. rw (← ok_inj e) p }
    where
      ok_inj : {b : A} → ok a ≡ ok b → a ≡ b
      ok_inj e = cc

  pub Yields-raise : (e : Error) → Yields {W = W} P (raise e)
  Yields-raise e = record { at = λ w b p. absurd (cc) }

  pub Yields-if :
      (b : Bool) (m n : Exec W A)
      → (b ≡ true → Yields P m)
      → (b ≡ false → Yields P n)
      → Yields P (if b then m else n)
  Yields-if true m n ym yn = ym refl
  Yields-if false m n ym yn = yn refl

  handle-Yields :
      (caught : Error → Bool) (k : Error → Exec W A) (r : Result A) (w : W) (a : A)
      → ((b : A) → r ≡ ok b → P b)
      → ((e : Error) → Yields P (k e))
      → (handle caught k r w).0 ≡ ok a
      → P a
  handle-Yields caught k (ok b) w a ym yk e = ym a e
  handle-Yields caught k (err x) w a ym yk e = elim (Bool-cases (caught x)) [
    | inl c ↦ (yk x).at w a (rw c at e)
    | inr c ↦ absurd (clash (rw c at e))
  ]

  pub Yields-try :
      (m : Exec W A) (caught : Error → Bool) (k : Error → Exec W A)
      → Yields P m
      → ((e : Error) → Yields P (k e))
      → Yields P (try_except m caught k)
  Yields-try m caught k ym yk = record {
    at = λ w a e. handle-Yields caught k (m w).0 (m w).1 a (ym.at w) yk e;
  }

  -- `or_raise` returns what the option holds.
  pub Yields-or_raise :
      (o : Option A) (e : Error) → ((a : A) → o ≡ some a → P a) → Yields {W = W} P (or_raise o e)
  Yields-or_raise none e k = record { at = λ w b p. absurd (cc) }
  Yields-or_raise (some a) e k = Yields-pure a (k a refl)

module _ {W : Type 0} where
  -- Behind a guard its test is false.
  pub Yields-raise_if : (b : Bool) (e : Error) → Yields {W = W} (λ _. b ≡ false) (raise_if b e)
  Yields-raise_if true e = record { at = λ w a p. absurd (cc) }
  Yields-raise_if false e = record { at = λ w a p. refl }

module _ {W A B : Type 0} {P : B → Type 0} (f : A → Exec W B) where
  continue-Yields :
      (Q : A → Type 0) (r : Result A) (w : W) (b : B)
      → ((a : A) → r ≡ ok a → Q a)
      → ((a : A) → Q a → Yields P (f a))
      → (continue r f w).0 ≡ ok b
      → P b
  continue-Yields Q (ok a) w b q yf e = (yf a (q a refl)).at w b e
  continue-Yields Q (err x) w b q yf e = absurd (cc)

  pub Yields-bind :
      (Q : A → Type 0) (m : Exec W A)
      → Yields Q m
      → ((a : A) → Q a → Yields P (f a))
      → Yields P (m >>= f)
  Yields-bind Q m ym yf = record {
    at = λ w b e. continue-Yields Q (m w).0 (m w).1 b (ym.at w) yf e;
  }

  -- the first action may return anything
  pub Yields-then : (m : Exec W A) → ((a : A) → Yields P (f a)) → Yields P (m >>= f)
  Yields-then m yf = Yields-bind Anything m (record { at = λ _ _ _. tt }) λ a _. yf a

-- ===== src/Exec.antt =====
-- Python's exceptions, and functions that act on the world outside and may raise.
-- What was done before a raise stays done, so the world comes back beside the error too.
pub mod Yields
pub mod Triple
use sre_agent_workshop.Prelude.{
  ◌≡◌, refl, ap, ◌⊎◌, inl, inr, Bool-cases, ℕ, String, Bool, true, false, Option, none, some, List,
  [], ◌∷◌, if◌then◌else◌,
}

-- The exception classes that the tools raise or catch, with `str(error)`.
-- `request_error` is `SreAgentRequestError` with its `status` and `retryable`, `http_error` is
-- `HttpError` with its `status`; both are subclasses of `DeploymentError`.
-- `subprocess_error` stands for `CalledProcessError` and `TimeoutExpired`.
-- `diverged` is no exception: a loop of the model has used up its fuel.
pub data Error : Type 0 where
  runtime_error value_error key_error type_error os_error subprocess_error : String → Error
  deployment_error cohort_error : String → Error
  request_error : Option ℕ → Bool → String → Error
  http_error : ℕ → String → Error
  other_error : String → Error
  diverged : Error

-- `str(error)`
abbrev pub message : Error → String
message (runtime_error m) = m
message (value_error m) = m
message (key_error m) = m
message (type_error m) = m
message (os_error m) = m
message (subprocess_error m) = m
message (deployment_error m) = m
message (cohort_error m) = m
message (request_error _ _ m) = m
message (http_error _ m) = m
message (other_error m) = m
message diverged = ""

abbrev pub is_runtime : Error → Bool
is_runtime (runtime_error _) = true
is_runtime _ = false

-- `isinstance(error, DeploymentError)`
abbrev pub is_deployment : Error → Bool
is_deployment (deployment_error _) = true
is_deployment (request_error _ _ _) = true
is_deployment (http_error _ _) = true
is_deployment _ = false

pub data Result {ℓ} (A : Type ℓ) : Type ℓ where
  ok : A → Result A
  err : Error → Result A

pub Result-cases {ℓ} :
    {A : Type ℓ} (r : Result A) → ((a : A) × (r ≡ ok a)) ⊎ ((e : Error) × (r ≡ err e))
Result-cases (ok a) = inl (a, refl)
Result-cases (err e) = inr (e, refl)

pub pair-eq : {A B : Type 0} {p : A × B} {a : A} {b : B} → p.0 ≡ a → p.1 ≡ b → p ≡ (a, b)
pair-eq e f = λ i. (e i, f i)

pub ok-inj : {A : Type 0} {a b : A} → ◌≡◌ {A = Result A} (ok a) (ok b) → a ≡ b
ok-inj e = cc

pub err-ne-ok : {A : Type 0} {x : Error} {a : A} → ◌≡◌ {A = Result A} (err x) (ok a) → ⊥
err-ne-ok e = cc

abbrev pub Exec : Type 0 → Type 0 → Type 0
Exec W A = W → Result A × W

module _ {W A : Type 0} where
  abbrev pub pure : A → Exec W A
  pure a w = (ok a, w)

  abbrev pub raise : Error → Exec W A
  raise e w = (err e, w)

  abbrev pub lift : Result A → Exec W A
  lift r w = (r, w)

  abbrev pub or_raise : Option A → Error → Exec W A
  or_raise none e = raise e
  or_raise (some a) _ = pure a

module _ {W A B : Type 0} where
  abbrev pub continue : Result A → (A → Exec W B) → Exec W B
  continue (ok a) f w = f a w
  continue (err e) f w = (err e, w)

  infixl 5 ◌>>=◌ ◌>>◌
  abbrev pub ◌>>=◌ : Exec W A → (A → Exec W B) → Exec W B
  ◌>>=◌ m f w = let (r, w') = m w in continue r f w'

  abbrev pub ◌>>◌ : Exec W A → Exec W B → Exec W B
  m >> k = m >>= λ _. k

module _ {W A B : Type 0} (f : A → Exec W B) where
  continue-eq-ok :
      (r : Result A) (w : W) (b : B)
      → (continue r f w).0 ≡ ok b
      → (a : A) × (r ≡ ok a) × ((f a w).0 ≡ ok b)
  continue-eq-ok (ok a) w b e = (a, refl, e)
  continue-eq-ok (err x) w b e = cc

  -- Inversion of a block that has returned.
  pub >>=-eq-ok :
      (m : Exec W A) (w : W) (b : B)
      → ((m >>= f) w).0 ≡ ok b
      → (a : A) × ((m w).0 ≡ ok a) × ((f a (m w).1).0 ≡ ok b)
  >>=-eq-ok m w b e = continue-eq-ok (m w).0 (m w).1 b e

  continue-eq :
      (r : Result A) (w : W) (b : B) (w' : W)
      → continue r f w ≡ (ok b, w')
      → (a : A) × (r ≡ ok a) × (f a w ≡ (ok b, w'))
  continue-eq (ok a) w b w' e = (a, refl, e)
  continue-eq (err x) w b w' e = absurd (err-ne-ok (ap (λ p. p.0) e))

  -- The same with the world behind the block.
  pub >>=-eq :
      (m : Exec W A) (w : W) (b : B) (w' : W)
      → (m >>= f) w ≡ (ok b, w')
      → (a : A) × ((m w).0 ≡ ok a) × (f a (m w).1 ≡ (ok b, w'))
  >>=-eq m w b w' e = continue-eq (m w).0 (m w).1 b w' e

module _ {W : Type 0} where
  -- `if c: raise e`
  abbrev pub raise_if : Bool → Error → Exec W (Unit {0})
  raise_if true e w = (err e, w)
  raise_if false _ w = (ok tt, w)

  abbrev pub do_if : Bool → Exec W (Unit {0}) → Exec W (Unit {0})
  do_if true m w = m w
  do_if false _ w = (ok tt, w)

module _ {W A : Type 0} where
  abbrev pub handle : (Error → Bool) → (Error → Exec W A) → Result A → Exec W A
  handle _ _ (ok a) w = (ok a, w)
  handle caught h (err e) w = if caught e then h e w else (err e, w)

  -- `try: m` and `except E as e: h e`, where `caught` tells the classes of `E`
  abbrev pub try_except : Exec W A → (Error → Bool) → (Error → Exec W A) → Exec W A
  try_except m caught h w = let (r, w') = m w in handle caught h r w'

module _ {W A : Type 0} (caught : Error → Bool) (h : Error → Exec W A) where
  handle-eq-ok :
      (r : Result A) (w : W) (a : A)
      → (handle caught h r w).0 ≡ ok a
      → (r ≡ ok a) ⊎ ((x : Error) × ((h x w).0 ≡ ok a))
  handle-eq-ok (ok b) w a e = inl e
  handle-eq-ok (err x) w a e = elim (Bool-cases (caught x)) [
    | inl c ↦ inr (x, rw c at e)
    | inr c ↦ cc (rw c at e)
  ]

  -- Inversion of a `try` that has returned: its body has, or its handler.
  pub try_except-eq-ok :
      (m : Exec W A) (w : W) (a : A)
      → (try_except m caught h w).0 ≡ ok a
      → ((m w).0 ≡ ok a) ⊎ ((x : Error) × ((h x (m w).1).0 ≡ ok a))
  try_except-eq-ok m w a e = handle-eq-ok (m w).0 (m w).1 a e

  handle-eq :
      (r : Result A) (w : W) (a : A) (w' : W)
      → handle caught h r w ≡ (ok a, w')
      → ((r ≡ ok a) × (w ≡ w')) ⊎ ((x : Error) × (h x w ≡ (ok a, w')))
  handle-eq (ok b) w a w' e = inl (ap (λ p. p.0) e, ap (λ p. p.1) e)
  handle-eq (err x) w a w' e = elim (Bool-cases (caught x)) [
    | inl c ↦ inr (x, rw c at e)
    | inr c ↦ absurd (err-ne-ok (ap (λ p. p.0) (rw c at e)))
  ]

  -- The same with the world behind the `try`.
  pub try_except-eq :
      (m : Exec W A) (w : W) (a : A) (w' : W)
      → try_except m caught h w ≡ (ok a, w')
      → (((m w).0 ≡ ok a) × ((m w).1 ≡ w')) ⊎ ((x : Error) × (h x (m w).1 ≡ (ok a, w')))
  try_except-eq m w a w' e = handle-eq (m w).0 (m w).1 a w' e

module _ {W A : Type 0} where
  -- Inversion of a block that begins with a guard.
  pub raise_if-then :
      (b : Bool) (x : Error) (m : Exec W A) (w : W) (a : A)
      → ((raise_if b x >> m) w).0 ≡ ok a
      → (b ≡ false) × ((m w).0 ≡ ok a)
  raise_if-then true x m w a e = absurd (err-ne-ok e)
  raise_if-then false x m w a e = (refl, e)

  pub raise_if-then-eq :
      (b : Bool) (x : Error) (m : Exec W A) (w : W) (a : A) (w' : W)
      → (raise_if b x >> m) w ≡ (ok a, w')
      → m w ≡ (ok a, w')
  raise_if-then-eq true x m w a w' e = absurd (err-ne-ok (ap (λ p. p.0) e))
  raise_if-then-eq false x m w a w' e = e

  pub or_raise-then :
      {B : Type 0} (o : Option A) (x : Error) (f : A → Exec W B) (w : W) (b : B)
      → ((or_raise o x >>= f) w).0 ≡ ok b
      → (a : A) × (o ≡ some a) × ((f a w).0 ≡ ok b)
  or_raise-then none x f w b e = absurd (err-ne-ok e)
  or_raise-then (some a) x f w b e = (a, refl, e)

-- ===== src/Exec/Triple.antt =====
-- What holds after an action, by how it ended, one rule for each way to build an action.
use sre_agent_workshop.Prelude.{◌≡◌, refl, Bool, true, false, if◌then◌else◌}
use sre_agent_workshop.Exec.{
  handle, try_except, Exec, Error, Result, ok, err, pure, raise, lift, continue, ◌>>=◌,
}

abbrev pub Ends : {W A : Type 0} → (A → W → Type 0) → (Error → W → Type 0) → Result A × W → Type 0
Ends Q E (ok a, w) = Q a w
Ends Q E (err e, w) = E e w

-- From a state with `P` the action returns in one with `Q`, or raises in one with `E`.
pub record Triple {W A : Type 0} (P : W → Type 0) (m : Exec W A) (Q : A → W → Type 0)
    (E : Error → W → Type 0) : Type 0 where
  pub at : (w : W) → P w → Ends Q E (m w)

module _ {W A : Type 0} {P : W → Type 0} {Q : A → W → Type 0} {E : Error → W → Type 0} where
  pub Triple-pure : (a : A) → ((w : W) → P w → Q a w) → Triple P (pure a) Q E
  Triple-pure a k = record { at = k }

  pub Triple-raise : (e : Error) → ((w : W) → P w → E e w) → Triple P (raise e) Q E
  Triple-raise e k = record { at = k }

  pub Triple-if :
      (b : Bool) (m n : Exec W A)
      → (b ≡ true → Triple P m Q E)
      → (b ≡ false → Triple P n Q E)
      → Triple P (if b then m else n) Q E
  Triple-if true m n km kn = km refl
  Triple-if false m n km kn = kn refl

ok-injective : {A : Type 0} {a b : A} → ok a ≡ ok b → a ≡ b
ok-injective e = cc

pub Triple-lift :
    {W A : Type 0} {P : W → Type 0} {Q : A → W → Type 0} (r : Result A)
    → ((a : A) → r ≡ ok a → (w : W) → P w → Q a w)
    → Triple P (lift r) Q (λ _ _. Unit)
Triple-lift (ok a) k = record { at = k a refl }
Triple-lift (err e) k = record { at = λ _ _. tt }

-- A returned result satisfies what is said of it.
pub Triple-ok :
    {W A : Type 0} {P : W → Type 0} {m : Exec W A} {Q : A → W → Type 0} {E : Error → W → Type 0}
    → Triple P m Q E
    → (w : W) → P w
    → (a : A) → (m w).0 ≡ ok a
    → Q a (m w).1
Triple-ok {W} {A} {P} {m} {Q} {E} t w p a e = returned (m w).0 (m w).1 (t.at w p) e
  where
    returned : (r : Result A) (w : W) → Ends Q E (r, w) → r ≡ ok a → Q a w
    returned (ok b) w q e = rw (← ok-injective e) q
    returned (err x) w q e = cc

module _ {W A : Type 0} {Q Q' : A → W → Type 0} {E E' : Error → W → Type 0} where
  Ends-map :
      (r : Result A) (w : W)
      → Ends Q E (r, w)
      → ((a : A) (w : W) → Q a w → Q' a w)
      → ((e : Error) (w : W) → E e w → E' e w)
      → Ends Q' E' (r, w)
  Ends-map (ok a) w p k l = k a w p
  Ends-map (err e) w p k l = l e w p

-- An action of which nothing is said.
pub Triple-any :
    {W A : Type 0} {P : W → Type 0} (m : Exec W A) → Triple P m (λ _ _. Unit) (λ _ _. Unit)
Triple-any {W} {A} m = record { at = λ w _. said (m w).0 (m w).1 }
  where
    said : (r : Result A) (w : W) → Ends {A = A} (λ _ _. Unit) (λ _ _. Unit) (r, w)
    said (ok a) w = tt
    said (err e) w = tt

module _ {W A : Type 0} {P : W → Type 0} {m : Exec W A} where
  pub Triple-error :
      {Q : A → W → Type 0} {E E' : Error → W → Type 0}
      → Triple P m Q E
      → ((e : Error) (w : W) → E e w → E' e w)
      → Triple P m Q E'
  Triple-error t k = record { at = λ w p. Ends-map (m w).0 (m w).1 (t.at w p) (λ _ _ q. q) k }

  pub Triple-result :
      {Q Q' : A → W → Type 0} {E : Error → W → Type 0}
      → Triple P m Q E
      → ((a : A) (w : W) → Q a w → Q' a w)
      → Triple P m Q' E
  Triple-result t k = record { at = λ w p. Ends-map (m w).0 (m w).1 (t.at w p) k (λ _ _ q. q) }

module _ {W A B : Type 0} (R : A → W → Type 0) {Q : B → W → Type 0} {E : Error → W → Type 0} where
  continue-Ends :
      (f : A → Exec W B) (r : Result A) (w : W)
      → Ends R E (r, w)
      → ((a : A) → Triple (R a) (f a) Q E)
      → Ends Q E (continue r f w)
  continue-Ends f (ok a) w h kf = (kf a).at w h
  continue-Ends f (err e) w h kf = h

module _ {W A B : Type 0} {P : W → Type 0} (R : A → W → Type 0) {Q : B → W → Type 0}
    {E : Error → W → Type 0} where
  pub Triple-bind :
      (m : Exec W A) (f : A → Exec W B)
      → Triple P m R E
      → ((a : A) → Triple (R a) (f a) Q E)
      → Triple P (m >>= f) Q E
  Triple-bind m f km kf = record { at = λ w h. continue-Ends R f (m w).0 (m w).1 (km.at w h) kf }

-- `try`: the body leaves `F` of its error where it raises, and the handler begins there.
module _ {W A : Type 0} {P : W → Type 0} (F : Error → W → Type 0) {Q : A → W → Type 0}
    {E : Error → W → Type 0} where
  pub Triple-catch :
      (m : Exec W A) (caught : Error → Bool) (h : Error → Exec W A)
      → Triple P m Q F
      → ((e : Error) → caught e ≡ true → Triple (F e) (h e) Q E)
      → ((e : Error) → caught e ≡ false → (w : W) → F e w → E e w)
      → Triple P (try_except m caught h) Q E
  Triple-catch m caught h body caught_case other = record {
    at = λ w p. handled (m w).0 (m w).1 (body.at w p);
  }
    where
      raised :
          (e : Error) (b : Bool) (w : W)
          → caught e ≡ b
          → F e w
          → Ends Q E ((if b then h e w else (err e, w)))
      raised e true w c f = (caught_case e c).at w f
      raised e false w c f = other e c w f

      handled : (r : Result A) (w : W) → Ends Q F (r, w) → Ends Q E (handle caught h r w)
      handled (ok a) w q = q
      handled (err e) w f = raised e (caught e) w refl f

-- The same where what the body leaves does not depend on its error.
module _ {W A : Type 0} {P : W → Type 0} (F : W → Type 0) {Q : A → W → Type 0}
    {E : Error → W → Type 0} where
  pub Triple-try :
      (m : Exec W A) (caught : Error → Bool) (h : Error → Exec W A)
      → Triple P m Q (λ _. F)
      → ((e : Error) → caught e ≡ true → Triple F (h e) Q E)
      → ((e : Error) → caught e ≡ false → (w : W) → F w → E e w)
      → Triple P (try_except m caught h) Q E
  Triple-try m caught h body caught_case other =
      Triple-catch (λ _. F) m caught h body caught_case other

-- ===== src/Prelude/Lists.antt =====
-- Lists measured and cut by native numbers, and Boolean quantifiers.
use Prim.Native.Nat.{ℕ, zero, suc, ◌≤◌, min}
use mathlib.Core.Path.{◌≡◌, refl, ap}
use mathlib.Core.Bool.{Bool, true, false, ◌&&◌, ◌||◌}
use mathlib.Core.List.{List, [], ◌∷◌}
use mathlib.Core.Option.{Option, none, some}
use native.Mathlib.Omega.{arith}

module _ {ℓ} {A : Type ℓ} where
  abbrev pub length : List A → ℕ
  length [] = 0
  length (_ ∷ xs) = suc (length xs)

  abbrev pub get_elem? : List A → ℕ → Option A
  get_elem? [] _ = none
  get_elem? (x ∷ _) zero = some x
  get_elem? (_ ∷ xs) (suc i) = get_elem? xs i

  -- Changes the element at a position; nothing happens past the end.
  abbrev pub modify : List A → ℕ → (A → A) → List A
  modify [] _ _ = []
  modify (x ∷ xs) zero f = f x ∷ xs
  modify (x ∷ xs) (suc i) f = x ∷ modify xs i f

  abbrev pub take : ℕ → List A → List A
  take zero _ = []
  take (suc _) [] = []
  take (suc n) (x ∷ xs) = x ∷ take n xs

  abbrev pub drop : ℕ → List A → List A
  drop zero xs = xs
  drop (suc _) [] = []
  drop (suc n) (_ ∷ xs) = drop n xs

  abbrev pub all : (A → Bool) → List A → Bool
  all _ [] = true
  all p (x ∷ xs) = p x && all p xs

  abbrev pub any : (A → Bool) → List A → Bool
  any _ [] = false
  any p (x ∷ xs) = p x || any p xs

  abbrev pub All {κ} : (A → Type κ) → List A → Type κ
  All _ [] = Unit
  All P (x ∷ xs) = P x × All P xs

  pub take_all : (n : ℕ) (xs : List A) → length xs ≤ n → take n xs ≡ xs
  take_all zero [] _ = refl
  take_all zero (_ ∷ _) h = absurd (omega arith)
  take_all (suc _) [] _ = refl
  take_all (suc n) (x ∷ xs) h = ap (λ t. x ∷ t) (take_all n xs (omega arith))

  pub length-take : (n : ℕ) (xs : List A) → length (take n xs) ≡ min n (length xs)
  length-take zero xs = omega arith
  length-take (suc _) [] = omega arith
  length-take (suc n) (_ ∷ xs) = omega (arith, length-take n xs)

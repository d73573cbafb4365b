-- ===== src/Prelude/Rotate.antt =====
-- The rest of a list, and a list that is read around from an index.
use Prim.Native.Nat.{ℕ, zero, suc, ◌+◌, ◌-◌, ◌≤◌, min}
use mathlib.Core.Path.{◌≡◌, refl, ap, ◌∙◌}
use mathlib.Core.Bool.{Bool}
use mathlib.Core.List.{List, [], ◌∷◌, ◌++◌}
use mathlib.Core.Option.{some, some-injective}
use native.Mathlib.Omega.{arith}
use bluffking.Prelude.Lists.{length, length-append, get_elem?, take, count}

module _ {ℓ} {A : Type ℓ} where
  -- The elements from index `k` on.
  abbrev pub drop : ℕ → List A → List A
  drop zero xs = xs
  drop (suc k) [] = []
  drop (suc k) (x ∷ xs) = drop k xs

  -- The list from index `k` on, and then its beginning.
  abbrev pub rotate : ℕ → List A → List A
  rotate k xs = drop k xs ++ take k xs

  pub drop-get :
      (k : ℕ) (xs : List A) (x : A) → get_elem? xs k ≡ some x → drop k xs ≡ x ∷ drop (k + 1) xs
  drop-get k [] x e = cc
  drop-get zero (y ∷ xs) x e = ap (λ z. z ∷ xs) (some-injective _ _ e)
  drop-get (suc k) (y ∷ xs) x e =
      let step : suc (k + 1) ≡ suc k + 1 = omega arith in
      drop-get k xs x e ∙ ap (λ m. x ∷ drop m (y ∷ xs)) step

  pub take-all : (k : ℕ) (xs : List A) → length xs ≤ k → take k xs ≡ xs
  unfolding take
  take-all zero [] h = refl
  take-all zero (x ∷ xs) h = absurd (omega arith)
  take-all (suc k) [] h = refl
  take-all (suc k) (x ∷ xs) h = ap (λ ys. x ∷ ys) (take-all k xs (omega arith))

  pub length-drop : (k : ℕ) (xs : List A) → length (drop k xs) ≡ length xs - k
  length-drop zero xs = omega arith
  length-drop (suc k) [] = omega arith
  length-drop (suc k) (x ∷ xs) = omega (arith, length-drop k xs)

  length-take : (k : ℕ) (xs : List A) → length (take k xs) ≡ min k (length xs)
  unfolding take
  length-take zero xs = omega arith
  length-take (suc k) [] = omega arith
  length-take (suc k) (x ∷ xs) = omega (arith, length-take k xs)

  count-append : (p : A → Bool) (xs ys : List A) → count p (xs ++ ys) ≡ count p xs + count p ys
  unfolding count
  count-append p [] ys = omega arith
  count-append p (x ∷ xs) ys = omega (arith, count-append p xs ys)

  count-take-drop :
      (p : A → Bool) (k : ℕ) (xs : List A) → count p (take k xs) + count p (drop k xs) ≡ count p xs
  unfolding count take
  count-take-drop p zero xs = omega arith
  count-take-drop p (suc k) [] = omega arith
  count-take-drop p (suc k) (x ∷ xs) = omega (arith, count-take-drop p k xs)

  -- Reading around drops nothing.
  pub count-rotate : (p : A → Bool) (k : ℕ) (xs : List A) → count p (rotate k xs) ≡ count p xs
  count-rotate p k xs =
      omega (arith, count-append p (drop k xs) (take k xs), count-take-drop p k xs)

  pub length-rotate : (k : ℕ) (xs : List A) → length (rotate k xs) ≡ length xs
  length-rotate k xs =
      omega (arith, length-append (drop k xs) (take k xs), length-drop k xs, length-take k xs)

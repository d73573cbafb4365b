-- ===== src/Prelude/Modify.antt =====
-- Sums, counts and invariants of a list in which one element is overwritten.
use Prim.Native.Nat.{ℕ, zero, suc, ◌+◌, ◌≤◌, ◌<◌}
use mathlib.Core.Path.{◌≡◌, refl, ap, sym, subst}
use mathlib.Core.Logic.{◌≢◌, inl, inr}
use mathlib.Core.Bool.{Bool, true}
use mathlib.Core.List.{List, [], ◌∷◌, map}
use mathlib.Core.Option.{some, some-injective}
use native.Mathlib.Omega.{arith}
use bluffking.Prelude.Tests.{if◌then◌else◌, Bool-cases, Option-cases}
use bluffking.Prelude.Lists.{length, get_elem?, modify, count, sum_by, All, position, any}

module _ {ℓ} {A : Type ℓ} where
  pub length-modify : (xs : List A) (i : ℕ) (f : A → A) → length (modify xs i f) ≡ length xs
  unfolding modify
  length-modify [] i f = refl
  length-modify (x ∷ xs) zero f = refl
  length-modify (x ∷ xs) (suc i) f = ap suc (length-modify xs i f)

  pub sum_by-modify :
      (g : A → ℕ) (xs : List A) (i : ℕ) (f : A → A) (x : A)
      → get_elem? xs i ≡ some x
      → sum_by g (modify xs i f) + g x ≡ sum_by g xs + g (f x)
  unfolding modify sum_by
  sum_by-modify g [] i f x e = cc
  sum_by-modify g (y ∷ xs) zero f x e = ground arith
  sum_by-modify g (y ∷ xs) (suc i) f x e = omega (arith, sum_by-modify g xs i f x e)

  pub count-modify :
      (p : A → Bool) (xs : List A) (i : ℕ) (f : A → A) (x : A)
      → get_elem? xs i ≡ some x
      → count p (modify xs i f) + (if p x then 1 else 0) ≡ count p xs + (if p (f x) then 1 else 0)
  unfolding modify count
  count-modify p [] i f x e = cc
  count-modify p (y ∷ xs) zero f x e = ground arith
  count-modify p (y ∷ xs) (suc i) f x e = omega (arith, count-modify p xs i f x e)

  pub le-sum_by :
      (g : A → ℕ) (xs : List A) (i : ℕ) (x : A) → get_elem? xs i ≡ some x → g x ≤ sum_by g xs
  unfolding sum_by
  le-sum_by g [] i x e = cc
  le-sum_by g (y ∷ xs) zero x e = ground arith
  le-sum_by g (y ∷ xs) (suc i) x e = omega (arith, le-sum_by g xs i x e)

  pub sum_by-le : (g h : A → ℕ) (xs : List A) → ((x : A) → g x ≤ h x) → sum_by g xs ≤ sum_by h xs
  unfolding sum_by
  sum_by-le g h [] k = omega arith
  sum_by-le g h (x ∷ xs) k = omega (arith, k x, sum_by-le g h xs k)

  pub sum_by-add :
      (g h : A → ℕ) (xs : List A) → sum_by (λ x. g x + h x) xs ≡ sum_by g xs + sum_by h xs
  unfolding sum_by
  sum_by-add g h [] = omega arith
  sum_by-add g h (x ∷ xs) = omega (arith, sum_by-add g h xs)

  pub count-pos_of_get :
      (p : A → Bool) (xs : List A) (i : ℕ) (x : A)
      → get_elem? xs i ≡ some x
      → p x ≡ true
      → 0 < count p xs
  unfolding count
  count-pos_of_get p [] i x e h = cc
  count-pos_of_get p (y ∷ xs) zero x e h = ground arith
  count-pos_of_get p (y ∷ xs) (suc i) x e h = omega (arith, count-pos_of_get p xs i x e h)

  pub All-modify {κ} :
      (P : A → Type κ) (xs : List A) (i : ℕ) (f : A → A) (x : A)
      → get_elem? xs i ≡ some x
      → P (f x)
      → All P xs
      → All P (modify xs i f)
  unfolding modify
  All-modify P [] i f x e h hs = hs
  All-modify P (y ∷ xs) zero f x e h hs =
      (subst (λ a. P (f a)) (sym (some-injective _ _ e)) h, hs.1)
  All-modify P (y ∷ xs) (suc i) f x e h hs = (hs.0, All-modify P xs i f x e h hs.1)

  pub All-get {κ} :
      (P : A → Type κ) (xs : List A) (i : ℕ) (x : A) → get_elem? xs i ≡ some x → All P xs → P x
  All-get P [] i x e hs = cc
  All-get P (y ∷ xs) zero x e hs = subst P (some-injective _ _ e) hs.0
  All-get P (y ∷ xs) (suc i) x e hs = All-get P xs i x e hs.1

  pub get_elem?-modify_self :
      (xs : List A) (i : ℕ) (f : A → A) (x : A)
      → get_elem? xs i ≡ some x
      → get_elem? (modify xs i f) i ≡ some (f x)
  unfolding modify
  get_elem?-modify_self [] i f x e = cc
  get_elem?-modify_self (y ∷ xs) zero f x e = cc
  get_elem?-modify_self (y ∷ xs) (suc i) f x e = get_elem?-modify_self xs i f x e

  -- A field that the update keeps reads the same in every element.
  pub map-modify {κ} :
      {B : Type κ} (g : A → B) (xs : List A) (i : ℕ) (f : A → A) (x : A)
      → get_elem? xs i ≡ some x
      → g (f x) ≡ g x
      → map g (modify xs i f) ≡ map g xs
  unfolding modify
  map-modify g [] i f x e h = refl
  map-modify g (y ∷ xs) zero f x e h = ground (arith)
  map-modify g (y ∷ xs) (suc i) f x e h = ap (◌∷◌ (g y)) (map-modify g xs i f x e h)

  pub modify-modify :
      (xs : List A) (i : ℕ) (f g : A → A) → modify (modify xs i f) i g ≡ modify xs i (λ x. g (f x))
  unfolding modify
  modify-modify [] i f g = refl
  modify-modify (x ∷ xs) zero f g = refl
  modify-modify (x ∷ xs) (suc i) f g = ap (◌∷◌ x) (modify-modify xs i f g)

  pub get_elem?-modify_ne :
      (xs : List A) (i j : ℕ) (f : A → A) → i ≢ j → get_elem? (modify xs i f) j ≡ get_elem? xs j
  unfolding modify
  get_elem?-modify_ne [] i j f h = refl
  get_elem?-modify_ne (x ∷ xs) zero zero f h = absurd (h refl)
  get_elem?-modify_ne (x ∷ xs) zero (suc j) f h = refl
  get_elem?-modify_ne (x ∷ xs) (suc i) zero f h = refl
  get_elem?-modify_ne (x ∷ xs) (suc i) (suc j) f h =
      get_elem?-modify_ne xs i j f (λ e. h (ap suc e))

  pub position-get :
      (f : A → Bool) (xs : List A) (i : ℕ)
      → position f xs ≡ some i
      → (x : A) × (get_elem? xs i ≡ some x) × (f x ≡ true)
  unfolding position
  position-get f [] i e = cc
  position-get f (y ∷ xs) i e = elim (Bool-cases (f y)) [
    | inl hit ↦ (y, ground arith, hit)
    | inr miss ↦ elim (Option-cases (position f xs)) [
      | inl none_left ↦ ground arith
      | inr (j, e') ↦ let (x, at_j, fx) = position-get f xs j e' in (x, ground arith, fx)
    ]
  ]

  pub get-in_range : (xs : List A) (i : ℕ) → i < length xs → (x : A) × (get_elem? xs i ≡ some x)
  get-in_range [] i h = absurd (omega arith)
  get-in_range (x ∷ xs) zero h = (x, refl)
  get-in_range (x ∷ xs) (suc i) h = get-in_range xs i (omega arith)

  pub get-bound : (xs : List A) (i : ℕ) (x : A) → get_elem? xs i ≡ some x → i < length xs
  get-bound [] i x e = cc
  get-bound (y ∷ xs) zero x e = omega arith
  get-bound (y ∷ xs) (suc i) x e = omega (arith, get-bound xs i x e)

  pub position-any :
      (f : A → Bool) (xs : List A) → any f xs ≡ true → (i : ℕ) × (position f xs ≡ some i)
  unfolding position any
  position-any f [] e = cc
  position-any f (y ∷ xs) e = elim (Bool-cases (f y)) [
    | inl hit ↦ rw hit (0, refl)
    | inr miss ↦ let (i, at_i) = position-any f xs (ground arith) in rw miss (suc i, rw at_i refl)
  ]

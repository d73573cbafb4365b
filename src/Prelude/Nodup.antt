-- ===== src/Prelude/Nodup.antt =====
-- Distinct ids in a list of entries that is sorted, filtered or cut.
use mathlib.Core.Path.{◌≡◌, refl, ◌∙◌}
use mathlib.Core.Logic.{inl, inr}
use mathlib.Core.Bool.{Bool, false, ◌||◌}
use mathlib.Core.List.{List, [], ◌∷◌, map}
use native.Mathlib.Omega.{arith}
use Prim.Native.Nat.{ℕ}
use bluffking.Prelude.Tests.{if-elim, ◌==◌, Bool-cases}
use bluffking.Prelude.Lists.{filter, take_while}
use bluffking.Prelude.SortBy.{insert_by, sort_by, contains, IsNodup}

module _ {ℓ} {A : Type ℓ} (f : A → ℕ) where
  contains-map-insert_by :
      (le : A → A → Bool) (a : ℕ) (x : A) (ys : List A)
      → contains a (map f (insert_by le x ys)) ≡ (a == f x || contains a (map f ys))
  unfolding contains insert_by
  contains-map-insert_by le a x [] = refl
  contains-map-insert_by le a x (y ∷ ys) = ground (arith, contains-map-insert_by le a x ys)

  pub contains-map-sort_by :
      (le : A → A → Bool) (a : ℕ) (xs : List A)
      → contains a (map f (sort_by le xs)) ≡ contains a (map f xs)
  unfolding contains sort_by
  contains-map-sort_by le a [] = refl
  contains-map-sort_by le a (x ∷ xs) =
      ground (arith, contains-map-insert_by le a x (sort_by le xs), contains-map-sort_by le a xs)

  insert_by-IsNodup :
      (le : A → A → Bool) (x : A) (ys : List A)
      → contains (f x) (map f ys) ≡ false
      → IsNodup (map f ys)
      → IsNodup (map f (insert_by le x ys))
  unfolding contains insert_by
  insert_by-IsNodup le x [] h d = (refl, tt)
  insert_by-IsNodup le x (y ∷ ys) h d = elim (Bool-cases (le x y)) [
    | inl e ↦ rw e (h, d)
    | inr e ↦ rw e (
      ground (arith, contains-map-insert_by le (f y) x ys, d.0),
      insert_by-IsNodup le x ys (ground arith) d.1,
    )
  ]

  pub map-sort_by-IsNodup :
      (le : A → A → Bool) (xs : List A) → IsNodup (map f xs) → IsNodup (map f (sort_by le xs))
  unfolding sort_by
  map-sort_by-IsNodup le [] d = tt
  map-sort_by-IsNodup le (x ∷ xs) d =
      insert_by-IsNodup le x (sort_by le xs) (contains-map-sort_by le (f x) xs ∙ d.0)
        (map-sort_by-IsNodup le xs d.1)

  pub contains-map-take_while :
      (p : A → Bool) (a : ℕ) (xs : List A)
      → contains a (map f xs) ≡ false
      → contains a (map f (take_while p xs)) ≡ false
  unfolding contains take_while
  contains-map-take_while p a [] h = refl
  contains-map-take_while p a (x ∷ xs) h = elim (Bool-cases (p x)) [
    | inl e ↦ rw e (ground (arith, contains-map-take_while p a xs (ground arith)))
    | inr e ↦ rw e refl
  ]

  pub map-take_while-IsNodup :
      (p : A → Bool) (xs : List A) → IsNodup (map f xs) → IsNodup (map f (take_while p xs))
  unfolding take_while
  map-take_while-IsNodup p [] d = tt
  map-take_while-IsNodup p (x ∷ xs) d = elim (Bool-cases (p x)) [
    | inl e ↦ rw e (contains-map-take_while p (f x) xs d.0, map-take_while-IsNodup p xs d.1)
    | inr e ↦ rw e tt
  ]

  contains-map-filter :
      (p : A → Bool) (a : ℕ) (xs : List A)
      → contains a (map f xs) ≡ false
      → contains a (map f (filter p xs)) ≡ false
  unfolding contains filter
  contains-map-filter p a [] h = refl
  contains-map-filter p a (x ∷ xs) h =
      if-elim (λ ys. contains a (map f ys) ≡ false) (p x)
        (λ e. ground (arith, contains-map-filter p a xs (ground arith)))
        (λ e. contains-map-filter p a xs (ground arith))

  pub map-filter-IsNodup :
      (p : A → Bool) (xs : List A) → IsNodup (map f xs) → IsNodup (map f (filter p xs))
  unfolding filter
  map-filter-IsNodup p [] d = tt
  map-filter-IsNodup p (x ∷ xs) d =
      if-elim (λ ys. IsNodup (map f ys)) (p x)
        (λ e. (contains-map-filter p (f x) xs d.0, map-filter-IsNodup p xs d.1))
        (λ e. map-filter-IsNodup p xs d.1)

-- ===== src/Prelude/SortBy.antt =====
-- The stable sort of `sort_by_key`, as an insertion sort by a test `le x y` for "x may stand before
-- y", and distinct ids.
use Prim.Native.Nat.{ℕ, zero, suc, ◌+◌, ◌*◌, ◌≤◌}
use mathlib.Core.Path.{◌≡◌, refl, ap, ◌∙◌}
use mathlib.Core.Logic.{inl, inr}
use mathlib.Core.Bool.{Bool, true, false, ◌||◌}
use mathlib.Core.List.{List, [], ◌∷◌, map}
use native.Mathlib.Omega.{arith}
use bluffking.Prelude.Tests.{if◌then◌else◌, ◌==◌, Bool-cases}
use bluffking.Prelude.Lists.{length, sum_by, take}

module _ {ℓ} {A : Type ℓ} (le : A → A → Bool) where
  unfoldable pub insert_by : A → List A → List A
  insert_by x [] = x ∷ []
  insert_by x (y ∷ ys) = if le x y then x ∷ y ∷ ys else y ∷ insert_by x ys

  unfoldable pub sort_by : List A → List A
  unfolding insert_by
  sort_by [] = []
  sort_by (x ∷ xs) = insert_by x (sort_by xs)

  pub sum_by-insert_by :
      (g : A → ℕ) (x : A) (ys : List A) → sum_by g (insert_by x ys) ≡ g x + sum_by g ys
  unfolding sum_by insert_by
  sum_by-insert_by g x [] = refl
  sum_by-insert_by g x (y ∷ ys) = ground (arith, sum_by-insert_by g x ys)

  pub sum_by-sort_by : (g : A → ℕ) (xs : List A) → sum_by g (sort_by xs) ≡ sum_by g xs
  unfolding sum_by sort_by
  sum_by-sort_by g [] = refl
  sum_by-sort_by g (x ∷ xs) = omega (arith, sum_by-insert_by g x (sort_by xs), sum_by-sort_by g xs)

  pub length-insert_by : (x : A) (ys : List A) → length (insert_by x ys) ≡ suc (length ys)
  unfolding insert_by
  length-insert_by x [] = refl
  length-insert_by x (y ∷ ys) = ground (arith, length-insert_by x ys)

  pub length-sort_by : (xs : List A) → length (sort_by xs) ≡ length xs
  unfolding sort_by
  length-sort_by [] = refl
  length-sort_by (x ∷ xs) = omega (arith, length-insert_by x (sort_by xs), length-sort_by xs)

-- `v.contains(&a)`
unfoldable pub contains : ℕ → List ℕ → Bool
contains a [] = false
contains a (x ∷ xs) = a == x || contains a xs

-- No id stands twice.
abbrev pub IsNodup : List ℕ → Type 0
IsNodup [] = Unit {0}
IsNodup (x ∷ xs) = (contains x xs ≡ false) × IsNodup xs

pub contains-insert_by :
    (le : ℕ → ℕ → Bool) (a x : ℕ) (ys : List ℕ)
    → contains a (insert_by le x ys) ≡ (a == x || contains a ys)
unfolding contains insert_by
contains-insert_by le a x [] = refl
contains-insert_by le a x (y ∷ ys) = ground (arith, contains-insert_by le a x ys)

pub contains-sort_by :
    (le : ℕ → ℕ → Bool) (a : ℕ) (xs : List ℕ) → contains a (sort_by le xs) ≡ contains a xs
unfolding contains sort_by
contains-sort_by le a [] = refl
contains-sort_by le a (x ∷ xs) =
    ground (arith, contains-insert_by le a x (sort_by le xs), contains-sort_by le a xs)

insert_by-IsNodup :
    (le : ℕ → ℕ → Bool) (x : ℕ) (ys : List ℕ)
    → contains x ys ≡ false
    → IsNodup ys
    → IsNodup (insert_by le x ys)
unfolding contains insert_by
insert_by-IsNodup le x [] h d = (refl, tt)
insert_by-IsNodup le x (y ∷ ys) h d = elim (Bool-cases (le x y)) [
  | inl e ↦ rw e (h, d)
  | inr e ↦ rw e (
    ground (arith, contains-insert_by le y x ys, d.0),
    insert_by-IsNodup le x ys (ground arith) d.1,
  )
]

pub sort_by-IsNodup : (le : ℕ → ℕ → Bool) (xs : List ℕ) → IsNodup xs → IsNodup (sort_by le xs)
unfolding sort_by
sort_by-IsNodup le [] d = tt
sort_by-IsNodup le (x ∷ xs) d =
    insert_by-IsNodup le x (sort_by le xs) (contains-sort_by le x xs ∙ d.0)
      (sort_by-IsNodup le xs d.1)

sum_by-members :
    (g h : ℕ → ℕ) (xs : List ℕ)
    → ((y : ℕ) → contains y xs ≡ true → g y ≡ h y)
    → sum_by g xs ≡ sum_by h xs
unfolding sum_by contains
sum_by-members g h [] k = refl
sum_by-members g h (x ∷ xs) k =
    omega (arith, k x (ground arith), sum_by-members g h xs (λ y e. k y (ground arith)))

pub sum_by-const {ℓ} : {A : Type ℓ} (c : ℕ) (xs : List A) → sum_by (λ x. c) xs ≡ c * length xs
unfolding sum_by
sum_by-const c [] = omega arith
sum_by-const c (x ∷ xs) = omega (arith, sum_by-const c xs)

-- Of distinct ids, `k` are among the first `k`.
pub sum_by-take :
    (k : ℕ) (xs : List ℕ)
    → IsNodup xs
    → k ≤ length xs
    → sum_by (λ x. if contains x (take k xs) then 1 else 0) xs ≡ k
unfolding sum_by take contains
sum_by-take zero xs d h =
    let rest =
      sum_by-members (λ x. if contains x (take 0 xs) then 1 else 0) (λ x. 0) xs (λ y e. refl) in
    omega (arith, rest, sum_by-const 0 xs)
sum_by-take (suc k) [] d h = omega arith
sum_by-take (suc k) (x ∷ xs) d h =
    let rest =
      sum_by-members (λ y. if contains y (x ∷ take k xs) then 1 else 0)
        (λ y. if contains y (take k xs) then 1 else 0) xs (λ y e. ground (arith, d.0)) in
    ground (arith, rest, sum_by-take k xs d.1 (omega arith))

pub sum_by-map {ℓ κ} :
    {A : Type ℓ} {B : Type κ} (f : A → B) (g : B → ℕ) (xs : List A)
    → sum_by g (map f xs) ≡ sum_by (λ x. g (f x)) xs
unfolding sum_by
sum_by-map f g [] = refl
sum_by-map f g (x ∷ xs) = ap (λ n. g (f x) + n) (sum_by-map f g xs)

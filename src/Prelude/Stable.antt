-- ===== src/Prelude/Stable.antt =====
-- The stable sort by a total order, and its entries that tie.
use mathlib.Core.Path.{◌≡◌, refl, sym, ap, ◌∙◌}
use mathlib.Core.Logic.{inl, inr}
use mathlib.Core.Bool.{Bool, true, false}
use mathlib.Core.List.{List, [], ◌∷◌}
use native.Mathlib.Omega.{arith}
use bluffking.Prelude.Tests.{if◌then◌else◌, if-elim, Bool-cases}
use bluffking.Prelude.Lists.{All, filter, take_while}
use bluffking.Prelude.SortBy.{insert_by, sort_by}

abbrev pub IsSorted {ℓ} : {A : Type ℓ} → (A → A → Bool) → List A → Type 0
IsSorted le [] = Unit {0}
IsSorted le (x ∷ xs) = All (λ y. le x y ≡ true) xs × IsSorted le xs

module _ {ℓ} {A : Type ℓ} (le : A → A → Bool) where
  All-insert_by {κ} :
      (P : A → Type κ) (x : A) (ys : List A) → P x → All P ys → All P (insert_by le x ys)
  unfolding insert_by
  All-insert_by P x [] h k = (h, k)
  All-insert_by P x (y ∷ ys) h k =
      if-elim (All P) (le x y) (λ e. (h, k)) (λ e. (k.0, All-insert_by P x ys h k.1))

  insert_by-All {κ} :
      (P : A → Type κ) (x : A) (ys : List A) → All P (insert_by le x ys) → P x × All P ys
  unfolding insert_by
  insert_by-All P x [] h = h
  insert_by-All P x (y ∷ ys) h = elim (Bool-cases (le x y)) [
    | inl e ↦ rw e at h
    | inr e ↦ let h' = rw e at h in let rest = insert_by-All P x ys h'.1 in (rest.0, (h'.0, rest.1))
  ]

  pub sort_by-All {κ} : (P : A → Type κ) (xs : List A) → All P (sort_by le xs) → All P xs
  unfolding sort_by
  sort_by-All P [] h = tt
  sort_by-All P (x ∷ xs) h =
      let rest = insert_by-All P x (sort_by le xs) h in (rest.0, sort_by-All P xs rest.1)

  module _ (total : (x y : A) → le x y ≡ false → le y x ≡ true)
      (trans : (x y z : A) → le x y ≡ true → le y z ≡ true → le x z ≡ true) where
    All-trans :
        (x y : A) (zs : List A)
        → le x y ≡ true
        → All (λ z. le y z ≡ true) zs
        → All (λ z. le x z ≡ true) zs
    All-trans x y [] e h = tt
    All-trans x y (z ∷ zs) e h = (trans x y z e h.0, All-trans x y zs e h.1)

    insert_by-IsSorted : (x : A) (ys : List A) → IsSorted le ys → IsSorted le (insert_by le x ys)
    unfolding insert_by
    insert_by-IsSorted x [] h = (tt, tt)
    insert_by-IsSorted x (y ∷ ys) h =
        if-elim (IsSorted le) (le x y) (λ e. ((e, All-trans x y ys e h.0), h))
          (λ e. (
            All-insert_by (λ z. le y z ≡ true) x ys (total x y e) h.0,
            insert_by-IsSorted x ys h.1,
          ))

    pub sort_by-IsSorted : (xs : List A) → IsSorted le (sort_by le xs)
    unfolding sort_by
    sort_by-IsSorted [] = tt
    sort_by-IsSorted (x ∷ xs) = insert_by-IsSorted x (sort_by le xs) (sort_by-IsSorted xs)

  module _ (p : A → Bool) where
    filter-insert_by :
        ((x y : A) → p x ≡ true → p y ≡ true → le x y ≡ true)
        → (x : A) (ys : List A) → filter p (insert_by le x ys) ≡ filter p (x ∷ ys)
    unfolding filter insert_by
    filter-insert_by tie x [] = refl
    filter-insert_by tie x (y ∷ ys) = ground (arith, tie x y, filter-insert_by tie x ys)

    -- The entries of a class that ties stand in their old order.
    pub filter-sort_by :
        ((x y : A) → p x ≡ true → p y ≡ true → le x y ≡ true)
        → (xs : List A) → filter p (sort_by le xs) ≡ filter p xs
    unfolding filter sort_by
    filter-sort_by tie [] = refl
    filter-sort_by tie (x ∷ xs) =
        filter-insert_by tie x (sort_by le xs)
        ∙ ap (λ ys. if p x then x ∷ ys else ys) (filter-sort_by tie xs)

    filter-none : (xs : List A) → All (λ x. p x ≡ false) xs → filter p xs ≡ []
    unfolding filter
    filter-none [] h = refl
    filter-none (x ∷ xs) h = rw h.0 (filter-none xs h.1)

    leaves :
        (b : A)
        → ((y z : A) → le b y ≡ true → le y z ≡ true → p y ≡ false → p z ≡ false)
        → (x : A) → le b x ≡ true
        → p x ≡ false
        → (zs : List A) → All (λ z. le x z ≡ true) zs
        → All (λ z. p z ≡ false) zs
    leaves b leave x h e [] s = tt
    leaves b leave x h e (z ∷ zs) s = (leave x z h s.0 e, leaves b leave x h e zs s.1)

    -- Where a sorted list leaves the class, it leaves it for good.
    pub take_while-filter :
        (b : A)
        → ((y z : A) → le b y ≡ true → le y z ≡ true → p y ≡ false → p z ≡ false)
        → (xs : List A) → All (λ y. le b y ≡ true) xs
        → IsSorted le xs
        → take_while p xs ≡ filter p xs
    unfolding filter take_while
    take_while-filter b leave [] h s = refl
    take_while-filter b leave (x ∷ xs) h s = elim (Bool-cases (p x)) [
      | inl e ↦ rw e (ap (λ ys. x ∷ ys) (take_while-filter b leave xs h.1 s.1))
      | inr e ↦ rw e (sym (filter-none xs (leaves b leave x h.0 e xs s.0)))
    ]

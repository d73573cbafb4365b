-- ===== src/Prelude/Sort.antt =====
-- `sort_unstable` and `dedup` of a list of numbers, and `u32` sums.
use Prim.Native.Nat.{ℕ, ◌+◌, ◌≤◌, ◌<◌}
use mathlib.Core.Path.{◌≡◌, refl, ◌∙◌}
use mathlib.Core.Logic.{◌⊎◌, inl, inr}
use mathlib.Core.List.{List, [], ◌∷◌}
use native.Mathlib.Omega.{arith}
use bluffking.Prelude.Tests.{if◌then◌else◌, leb, ◌==◌, Bool-cases, leb→le, ==_iff}
use bluffking.Prelude.Words.{add32, u32_mod}

unfoldable pub insert_sorted : ℕ → List ℕ → List ℕ
insert_sorted x [] = x ∷ []
insert_sorted x (y ∷ ys) = if leb x y then x ∷ y ∷ ys else y ∷ insert_sorted x ys

unfoldable pub sort : List ℕ → List ℕ
unfolding insert_sorted
sort [] = []
sort (x ∷ xs) = insert_sorted x (sort xs)

-- The elements after `x`, without those equal to the one before.
unfoldable pub dedup_after : ℕ → List ℕ → List ℕ
dedup_after x [] = []
dedup_after x (y ∷ ys) = if y == x then dedup_after x ys else y ∷ dedup_after y ys

unfoldable pub dedup : List ℕ → List ℕ
unfolding dedup_after
dedup [] = []
dedup (x ∷ xs) = x ∷ dedup_after x xs

-- `.sum::<u32>()`
unfoldable pub sum32 : List ℕ → ℕ
unfolding add32
sum32 [] = 0
sum32 (x ∷ xs) = add32 x (sum32 xs)

unfoldable pub sum : List ℕ → ℕ
sum [] = 0
sum (x ∷ xs) = x + sum xs

pub sum32-eq : (xs : List ℕ) → sum xs < u32_mod → sum32 xs ≡ sum xs
unfolding sum32 sum
sum32-eq [] h = refl
sum32-eq (x ∷ xs) h = omega (arith, sum32-eq xs (omega arith))

-- No element is below `low` or below the one before.
abbrev pub IsAscending : ℕ → List ℕ → Type 0
IsAscending low [] = Unit {0}
IsAscending low (x ∷ xs) = (low ≤ x) × IsAscending x xs

abbrev pub Occurs : ℕ → List ℕ → Type 0
Occurs a [] = ⊥
Occurs a (x ∷ xs) = (a ≡ x) ⊎ Occurs a xs

insert_sorted-IsAscending :
    (low x : ℕ) (ys : List ℕ) → low ≤ x → IsAscending low ys → IsAscending low (insert_sorted x ys)
unfolding insert_sorted
insert_sorted-IsAscending low x [] h hs = (h, tt)
insert_sorted-IsAscending low x (y ∷ ys) h hs = elim (Bool-cases (leb x y)) [
  | inl e ↦ rw e (h, (leb→le x y e, hs.1))
  | inr e ↦ rw e (hs.0, insert_sorted-IsAscending y x ys (ground arith) hs.1)
]

pub sort-IsAscending : (xs : List ℕ) → IsAscending 0 (sort xs)
unfolding sort
sort-IsAscending [] = tt
sort-IsAscending (x ∷ xs) =
    insert_sorted-IsAscending 0 x (sort xs) (omega arith) (sort-IsAscending xs)

insert_sorted-Occurs_self : (x : ℕ) (ys : List ℕ) → Occurs x (insert_sorted x ys)
unfolding insert_sorted
insert_sorted-Occurs_self x [] = inl refl
insert_sorted-Occurs_self x (y ∷ ys) = elim (Bool-cases (leb x y)) [
  | inl e ↦ rw e (inl refl)
  | inr e ↦ rw e (inr (insert_sorted-Occurs_self x ys))
]

insert_sorted-Occurs : (a x : ℕ) (ys : List ℕ) → Occurs a ys → Occurs a (insert_sorted x ys)
unfolding insert_sorted
insert_sorted-Occurs a x [] h = elim h [ ]
insert_sorted-Occurs a x (y ∷ ys) h = elim (Bool-cases (leb x y)) [
  | inl e ↦ rw e (inr h)
  | inr e ↦ rw e (elim h [ inl p ↦ inl p | inr q ↦ inr (insert_sorted-Occurs a x ys q) ])
]

pub sort-Occurs : (a : ℕ) (xs : List ℕ) → Occurs a xs → Occurs a (sort xs)
unfolding sort
sort-Occurs a [] h = h
sort-Occurs a (x ∷ xs) (inl e) = rw e (insert_sorted-Occurs_self x (sort xs))
sort-Occurs a (x ∷ xs) (inr h) = insert_sorted-Occurs a x (sort xs) (sort-Occurs a xs h)

dedup_after-IsAscending :
    (x : ℕ) (ys : List ℕ) → IsAscending x ys → IsAscending x (dedup_after x ys)
unfolding dedup_after
dedup_after-IsAscending x [] h = tt
dedup_after-IsAscending x (y ∷ ys) h = elim (Bool-cases (y == x)) [
  | inl e ↦ rw e (dedup_after-IsAscending x ys (rw ((==_iff y x).0 e) at h.1))
  | inr e ↦ rw e (h.0, dedup_after-IsAscending y ys h.1)
]

pub dedup-IsAscending : (xs : List ℕ) → IsAscending 0 xs → IsAscending 0 (dedup xs)
unfolding dedup
dedup-IsAscending [] h = tt
dedup-IsAscending (x ∷ xs) h = (h.0, dedup_after-IsAscending x xs h.1)

dedup_after-Occurs : (a x : ℕ) (ys : List ℕ) → Occurs a ys → (a ≡ x) ⊎ Occurs a (dedup_after x ys)
unfolding dedup_after
dedup_after-Occurs a x [] h = elim h [ ]
dedup_after-Occurs a x (y ∷ ys) h = elim (Bool-cases (y == x)) [
  | inl e ↦
      rw e (elim h [ inl p ↦ inl (p ∙ (==_iff y x).0 e) | inr q ↦ dedup_after-Occurs a x ys q ])
  | inr e ↦ rw e (inr (elim h [ inl p ↦ inl p | inr q ↦ dedup_after-Occurs a y ys q ]))
]

pub dedup-Occurs : (a : ℕ) (xs : List ℕ) → Occurs a xs → Occurs a (dedup xs)
unfolding dedup
dedup-Occurs a [] h = h
dedup-Occurs a (x ∷ xs) (inl e) = inl e
dedup-Occurs a (x ∷ xs) (inr h) = dedup_after-Occurs a x xs h

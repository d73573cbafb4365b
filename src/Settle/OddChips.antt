-- ===== src/Settle/OddChips.antt =====
-- engine/src/game/pots.rs: the total of an equal split with its odd chips.
use bluffking.Prelude.{
  ℕ, zero, suc, ◌+◌, ◌*◌, ◌/◌, ◌%◌, ◌≤◌, ◌<◌, ◌≡◌, ◌∙◌, inl, inr, true, Option, List, arith, ◌==◌,
  if◌then◌else◌, Bool-cases, length, sum_by, take, sum_by-add, sort_by, contains, sum_by-sort_by,
  length-sort_by, IsNodup, sort_by-IsNodup, sum_by-take, sum_by-const, sum_by-map, u32_mod,
  add32-eq,
}
use native.Mathlib.Nat.{div-add-mod, mod-lt}
use bluffking.Settle.Split.{PotWinner, key_leb, odd_chip_recipients, paid, split_pot}

-- What the winners of a pot get together.
abbrev pub awarded : List PotWinner → ℕ
awarded = sum_by (λ w. w.amount_won)

le-mul : (n q : ℕ) → 0 < n → q ≤ n * q
le-mul zero q h = omega arith
le-mul (suc n) q h = omega arith

mod-le : (a n : ℕ) → 0 < n → a % n ≤ n
mod-le a n p = omega (arith, mod-lt a p)

module _ (order : ℕ → Option ℕ) where
  -- One odd chip goes out for each unit of the remainder.
  odd_chips :
      (ids : List ℕ) (rem : ℕ)
      → IsNodup ids
      → rem ≤ length ids
      → sum_by (λ x. if contains x (odd_chip_recipients ids rem order) then 1 else 0) ids ≡ rem
  unfolding odd_chip_recipients contains
  odd_chips ids rem d h = elim (Bool-cases (rem == 0)) [
    | inl e ↦ rw e (sum_by-const 0 ids ∙ ground arith)
    | inr e ↦ rw e (
        omega (
          arith,
          sum_by-take rem (sort_by (key_leb order) ids) (sort_by-IsNodup (key_leb order) ids d),
          length-sort_by (key_leb order) ids,
          sum_by-sort_by (key_leb order)
              (λ x. if contains x (take rem (sort_by (key_leb order) ids)) then 1 else 0) ids,
        ))
  ]

  pub recipient-rem :
      (ids : List ℕ) (rem x : ℕ) → contains x (odd_chip_recipients ids rem order) ≡ true → 0 < rem
  unfolding odd_chip_recipients contains
  recipient-rem ids zero x e = cc
  recipient-rem ids (suc rem) x e = omega arith

  -- A share does not wrap: an odd chip goes out only where the base is below the pot.
  pub paid-eq :
      (amount n : ℕ) (odd : List ℕ) (x : ℕ)
      → 0 < n
      → amount < u32_mod
      → ((contains x odd ≡ true) → 0 < amount % n)
      → (paid (amount / n) odd x).amount_won ≡ amount / n + (if contains x odd then 1 else 0)
  unfolding paid
  paid-eq amount n odd x p h k = elim (Bool-cases (contains x odd)) [
    | inl e ↦ rw e (
        add32-eq (amount / n) 1 (omega (arith, div-add-mod amount n, le-mul n (amount / n) p, k e)))
    | inr e ↦
        rw e
          (add32-eq (amount / n) 0 (omega (arith, div-add-mod amount n, le-mul n (amount / n) p)))
  ]

  -- The awards of an equal split add up to the pot.
  pub split_pot-awarded :
      (ids : List ℕ) (amount : ℕ)
      → IsNodup ids
      → 0 < length ids
      → amount < u32_mod
      → awarded (split_pot ids amount order) ≡ amount
  unfolding split_pot
  split_pot-awarded ids amount d p h =
      let n = length ids in
      let odd = odd_chip_recipients ids (amount % n) order in
      sum_by-map (paid (amount / n) odd) (λ w. w.amount_won) ids
      ∙ (λ i. sum_by (λ x. paid-eq amount n odd x p h (recipient-rem ids (amount % n) x) i) ids)
      ∙ omega (
        arith,
        sum_by-add (λ x. amount / n) (λ x. if contains x odd then 1 else 0) ids,
        sum_by-const (amount / n) ids,
        odd_chips ids (amount % n) d (mod-le amount (length ids) p),
        div-add-mod amount n,
      )

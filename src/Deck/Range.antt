-- ===== src/Deck/Range.antt =====
-- engine/src/deck.rs: the draws of `rng_range`, their range, their end, and their threshold.
use bluffking.Prelude.{
  ℕ, zero, suc, ◌+◌, ◌*◌, ◌/◌, ◌%◌, ◌≤◌, ◌<◌, ◌≡◌, refl, ap, ◌∙◌, inl, inr, true, some, arith, ltb,
  leb, Bool-cases,
}
use bluffking.Prelude.{lt→ltb}
use native.Mathlib.Nat.{mod-lt, div-add-mod, mul-mod_right}
use bluffking.Deck.{Rng, threshold, word, after, sample, rng_range}

-- The words that the loop accepts are as many for each value: their number is a multiple of `n`.
pub threshold-mod : (n : ℕ) → 0 < n → threshold n % n ≡ 0
threshold-mod n p =
    let q = 18446744073709551615 / n in
    let product : threshold n ≡ n * q = omega (arith, div-add-mod 18446744073709551615 n) in
    ap (λ t. t % n) product ∙ mul-mod_right n q

pub threshold-bound : (n : ℕ) → 0 < n → 18446744073709551615 < threshold n + n
threshold-bound n p = omega (arith, mod-lt 18446744073709551615 p)

module _ (rng : Rng) where
  -- The state after `k` more words.
  abbrev pub after_words : ℕ → rng.State → rng.State
  after_words zero s = s
  after_words (suc k) s = after_words k (after rng s)

  -- Among the next `fuel` words one is not among the last 52 values of a `u64`.
  abbrev pub HasWord : ℕ → rng.State → Type 0
  HasWord fuel s = (k : ℕ) × (k < fuel) × (word rng (after_words k s) < 18446744073709551564)

  -- A draw from a state whose word `k` is accepted.
  sample-accepted :
      (fuel n k : ℕ) (s : rng.State)
      → 1 < n
      → n ≤ 52
      → k < fuel
      → word rng (after_words k s) < 18446744073709551564
      → (v : ℕ) × (s' : rng.State) × (sample rng fuel s n ≡ some (v, s')) × (v < n)
  unfolding sample
  sample-accepted zero n k s p h l w = absurd (omega arith)
  sample-accepted (suc fuel) n zero s p h l w =
      let hit : ltb (word rng s) (threshold n) ≡ true =
        lt→ltb (word rng s) (threshold n) (omega (arith, threshold-bound n (omega arith))) in
      rw hit (word rng s % n, after rng s, refl, mod-lt (word rng s) (omega arith))
  sample-accepted (suc fuel) n (suc k) s p h l w =
      elim (Bool-cases (ltb (word rng s) (threshold n))) [
        | inl e ↦ rw e (word rng s % n, after rng s, refl, mod-lt (word rng s) (omega arith))
        | inr e ↦ rw e (sample-accepted fuel n k (after rng s) p h (omega arith) w)
      ]

  -- A draw from at most 52 values ends when the generator gives such a word, and is in range.
  pub rng_range-HasWord :
      (fuel n : ℕ) (s : rng.State)
      → 0 < n
      → n ≤ 52
      → HasWord fuel s
      → (v : ℕ) × (s' : rng.State) × (rng_range rng fuel s n ≡ some (v, s')) × (v < n)
  unfolding rng_range
  rng_range-HasWord fuel n s p h (k, l, w) = elim (Bool-cases (leb n 1)) [
    | inl e ↦ rw e (0, s, refl, p)
    | inr e ↦ rw e (sample-accepted fuel n k s (ground arith) h l w)
  ]

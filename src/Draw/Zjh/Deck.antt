-- ===== src/Draw/Zjh/Deck.antt =====
-- draw-games/verifier/src/zjh.rs: the deck of a hand.
use bluffking.Prelude.{
  ℕ, zero, suc, ◌+◌, ◌≤◌, ◌<◌, ◌≡◌, refl, sym, ap, subst, ◌∙◌, ◌⊎◌, inr, Bool, true, List, arith,
  length, keep, count,
}
use bluffking.Deck.Shuffle.{swap-count}
use bluffking.Draw.{ok, same, codes}
use bluffking.Draw.Proof.{Crates, Reveal, Entropy, entropy}
use bluffking.Draw.Proof.Below.{IsAligned, HasWords, below-Drawn, entropy-start}
use bluffking.Draw.Zjh.{range, shuffle_deck, deck}

pub length-range : (from len : ℕ) → length (range from len) ≡ len
unfolding range
length-range from zero = refl
length-range from (suc len) = ap suc (length-range (from + 1) len)

module _ (crates : Crates) (fuel : ℕ) (enough : 8 ≤ fuel) where
  shuffle_deck-count :
      (i : ℕ) (e : Entropy) (xs : List ℕ)
      → (i ≡ 0) ⊎ (i < length xs)
      → i < 16384
      → IsAligned e
      → HasWords crates e.seed
      → e.counter + i < 18446744073709551615
      → (ys : List ℕ) × (shuffle_deck crates fuel e i xs ≡ ok ys)
        × (length ys ≡ length xs)
        × ((p : ℕ → Bool) → count p ys ≡ count p xs)
  unfolding shuffle_deck
  shuffle_deck-count zero e xs h k aligned words room = (xs, refl, refl, λ p. refl)
  shuffle_deck-count (suc i) e xs h k aligned words room =
      let (j, e1, drawn, low, aligned1, kept, blocks) =
        below-Drawn crates fuel e (suc i + 1) enough aligned words (omega arith) (omega arith)
          (omega arith) in
      let (ys, swapped, len, keep) =
        swap-count xs (suc i) j (ground (arith, h)) (ground (arith, h, low)) in
      let (zs, rest, len2, keep2) =
        shuffle_deck-count i e1 ys (inr (ground (arith, h, len))) (omega arith) aligned1
          (subst (HasWords crates) (sym kept) words) (omega arith) in
      (zs, rw drawn (rw swapped rest), len2 ∙ len, λ p. keep2 p ∙ keep p)

  -- An opened reveal gives a deck that holds the 52 indices, each once, when every block of its
  -- stream has a word that is not among the first 16384 values.
  pub deck-count :
      (r : Reveal) {e : Entropy}
      → entropy crates r ≡ ok e
      → HasWords crates e.seed
      → same r.commitment.game (codes "zjh") ≡ true
      → (d : List ℕ) × (deck crates fuel r ≡ ok d)
        × (length d ≡ 52)
        × ((p : ℕ → Bool) → count p d ≡ count p (range 0 52))
  unfolding deck
  deck-count r {e} opened words game =
      let (aligned, fresh) = entropy-start crates r opened in
      let (d, done, len, counts) =
        shuffle_deck-count 51 e (range 0 52) (inr (omega (arith, length-range 0 52))) (omega arith)
          aligned words (omega arith) in
      (d, rw game (rw opened done), len ∙ length-range 0 52, counts)

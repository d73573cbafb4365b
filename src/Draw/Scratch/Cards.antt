-- ===== src/Draw/Scratch/Cards.antt =====
-- draw-games/verifier/src/scratch.rs: the cards of a purchase.
use bluffking.Prelude.{
  ℕ, zero, suc, ◌+◌, ◌*◌, ◌≤◌, ◌<◌, ◌≡◌, refl, sym, ap, subst, true, false, not, ◌&&◌, List, [],
  ◌∷◌, ℤ, pos, within, arith, leb, length, All, any, all,
}
use bluffking.Draw.{ok, same, codes}
use bluffking.Draw.Proof.{Crates, Reveal, Entropy, entropy}
use bluffking.Draw.Proof.Below.{IsAligned, HasWords, below-Drawn, entropy-start}
use bluffking.Draw.Scratch.{
  ScratchCard, prizes, award, payout, number, numbers_from, draw_card, draw_cards, generate,
}

-- A card as it is sold: six numbers and a lucky number from 1 to 30, with the prize that the rules
-- give.
abbrev pub IsCard : ScratchCard → Type 0
IsCard c =
    (length c.numbers ≡ 6)
    × (all (within 1 30) c.numbers ≡ true)
    × (within 1 30 c.lucky ≡ true)
    × (payout (pos 100) c.lucky c.numbers ≡ ok (c.prize, c.hits))

all-any : (xs : List ℤ) → all (within 1 30) xs ≡ true → any (λ n. not (within 1 30 n)) xs ≡ false
unfolding all any
all-any [] h = refl
all-any (x ∷ xs) h = ground (arith, all-any xs)

payout-award :
    (lucky : ℤ) (numbers : List ℤ)
    → within 1 30 lucky ≡ true
    → all (within 1 30) numbers ≡ true
    → payout (pos 100) lucky numbers ≡ ok (award (pos 100) lucky numbers prizes (pos 0, 0))
unfolding payout
payout-award lucky numbers range ranges = rw (range, all-any numbers ranges) refl

module _ (crates : Crates) (fuel : ℕ) (enough : 8 ≤ fuel) where
  -- A stream that can give so many more values.
  abbrev pub IsReady : ℕ → Entropy → Type 0
  IsReady n e = IsAligned e × HasWords crates e.seed × (e.counter + n < 18446744073709551616)

  pub IsReady-subst : (e : Entropy) {m n : ℕ} → m ≡ n → IsReady m e → IsReady n e
  IsReady-subst e equal ready = subst (λ k. IsReady k e) equal ready

  number-range :
      (n : ℕ) (e : Entropy)
      → IsReady (suc n) e
      → (x : ℤ) × (e' : Entropy) × (number crates fuel e ≡ ok (x, e'))
        × (within 1 30 x ≡ true)
        × IsReady n e'
  unfolding number
  number-range n e (aligned, words, room) =
      let (v, e', drawn, low, aligned', kept, blocks) =
        below-Drawn crates fuel e 30 enough aligned words (omega arith) (omega arith)
          (omega arith) in
      (
        pos (v + 1),
        e',
        rw drawn refl,
        ground (arith, low),
        (aligned', subst (HasWords crates) (sym kept) words, omega arith),
      )

  numbers_from-range :
      (k n : ℕ) (e : Entropy)
      → IsReady (k + n) e
      → (xs : List ℤ) × (e' : Entropy) × (numbers_from crates fuel k e ≡ ok (xs, e'))
        × (length xs ≡ k)
        × (all (within 1 30) xs ≡ true)
        × IsReady n e'
  unfolding numbers_from all
  numbers_from-range zero n e ready = ([], e, refl, refl, refl, IsReady-subst e (omega arith) ready)
  numbers_from-range (suc k) n e ready =
      let (x, e1, one, range, ready1) =
        number-range (k + n) e (IsReady-subst e (omega arith) ready) in
      let (xs, e2, rest, len, ranges, ready2) = numbers_from-range k n e1 ready1 in
      (x ∷ xs, e2, rw one (rw rest refl), ap suc len, rw range ranges, ready2)

  draw_card-IsCard :
      (n : ℕ) (e : Entropy)
      → IsReady (7 + n) e
      → (c : ScratchCard) × (e' : Entropy) × (draw_card crates fuel (pos 100) e ≡ ok (c, e'))
        × IsCard c
        × IsReady n e'
  unfolding draw_card
  draw_card-IsCard n e ready =
      let (xs, e1, six, len, ranges, ready1) =
        numbers_from-range 6 (suc n) e (IsReady-subst e (omega arith) ready) in
      let (lucky, e2, one, range, ready2) = number-range n e1 ready1 in
      let won = award (pos 100) lucky xs prizes (pos 0, 0) in
      let paid = payout-award lucky xs range ranges in
      (
        record { numbers = xs; lucky = lucky; prize = won.0; hits = won.1 },
        e2,
        rw six (rw one (rw paid refl)),
        (len, ranges, range, paid),
        ready2,
      )

  draw_cards-IsCard :
      (n : ℕ) (e : Entropy)
      → IsReady (7 * n) e
      → (cards : List ScratchCard) × (draw_cards crates fuel (pos 100) n e ≡ ok cards)
        × (length cards ≡ n)
        × All IsCard cards
  unfolding draw_cards
  draw_cards-IsCard zero e ready = ([], refl, refl, tt)
  draw_cards-IsCard (suc n) e ready =
      let (c, e1, one, good, ready1) =
        draw_card-IsCard (7 * n) e (IsReady-subst e (omega arith) ready) in
      let (cards, rest, len, all_good) = draw_cards-IsCard n e1 ready1 in
      (c ∷ cards, rw one (rw rest refl), ap suc len, (good, all_good))

  -- A purchase of an opened reveal has as many cards as were bought, each with its prize by the
  -- rules, when every block of the stream has a word that is not among the first 16384 values.
  pub generate-IsCard :
      (r : Reveal) {e : Entropy} (n : ℕ)
      → entropy crates r ≡ ok e
      → HasWords crates e.seed
      → same r.commitment.game (codes "scratch") ≡ true
      → 1 ≤ n
      → n ≤ 1000
      → (cards : List ScratchCard) × (generate crates fuel r (pos 100) n ≡ ok cards)
        × (length cards ≡ n)
        × All IsCard cards
  unfolding generate
  generate-IsCard r {e} n opened words game low high =
      let (aligned, fresh) = entropy-start crates r opened in
      let (cards, done, len, good) = draw_cards-IsCard n e (aligned, words, omega arith) in
      let small : (leb 1 n && leb n 1000) ≡ true = ground arith in
      (cards, rw game (rw small (rw opened done)), len, good)

-- ===== src/Draw/Scratch/Payout.antt =====
-- draw-games/verifier/src/scratch.rs: the prize of a card.
use native.Mathlib.Nat.{mul-add}
use bluffking.Prelude.{
  ℕ, ◌+◌, ◌*◌, ◌≤◌, ◌≡◌, refl, sym, ap, ◌∙◌, inl, inr, true, not, ◌&&◌, ◌||◌, List, [], ◌∷◌, ℤ, pos,
  within, same_int, arith, leb, if◌then◌else◌, Bool-cases, length, All, any, count, sum_by,
}
use bluffking.Draw.{ok, >>-eq-ok, ok-injective, bad_card}
use bluffking.Draw.Scratch.{prizes, award, payout}

-- The multipliers at the places of the lucky number.
unfoldable pub matched : ℤ → List ℤ → List ℕ → ℕ
matched lucky (n ∷ numbers) (m ∷ multipliers) =
    (if same_int n lucky then m else 0) + matched lucky numbers multipliers
matched lucky _ _ = 0

won-eq : {m n h k : ℕ} → m ≡ n → h ≡ k → ◌≡◌ {A = ℤ × ℕ} (pos m, h) (pos n, k)
won-eq e f = cc

award-matched :
    (c p h : ℕ) (lucky : ℤ) (numbers : List ℤ) (multipliers : List ℕ)
    → length numbers ≡ length multipliers
    → award (pos c) lucky numbers multipliers (pos p, h)
      ≡ (pos (p + c * matched lucky numbers multipliers), h + count (λ n. same_int n lucky) numbers)
unfolding award matched count
award-matched c p h lucky [] [] e = won-eq (omega arith) (omega arith)
award-matched c p h lucky [] (m ∷ ms) e = absurd (omega arith)
award-matched c p h lucky (n ∷ ns) [] e = absurd (omega arith)
award-matched c p h lucky (n ∷ ns) (m ∷ ms) e = elim (Bool-cases (same_int n lucky)) [
  | inl hit ↦ rw hit (
      award-matched c (p + c * m) (h + 1) lucky ns ms (omega arith)
      ∙ won-eq (omega (arith, mul-add c m (matched lucky ns ms))) (omega arith))
  | inr miss ↦
      rw miss (award-matched c p h lucky ns ms (omega arith) ∙ won-eq (omega arith) (omega arith))
]

matched-bounds :
    (lucky : ℤ) (numbers : List ℤ) (multipliers : List ℕ)
    → length numbers ≡ length multipliers
    → All (λ m. (leb 1 m && leb m 10) ≡ true) multipliers
    → (count (λ n. same_int n lucky) numbers ≤ matched lucky numbers multipliers)
      × (matched lucky numbers multipliers ≤ sum_by (λ m. m) multipliers)
      × (matched lucky numbers multipliers ≤ 10 * count (λ n. same_int n lucky) numbers)
unfolding matched count sum_by
matched-bounds lucky [] [] e h = (omega arith, omega arith, omega arith)
matched-bounds lucky [] (m ∷ ms) e h = absurd (omega arith)
matched-bounds lucky (n ∷ ns) [] e h = absurd (omega arith)
matched-bounds lucky (n ∷ ns) (m ∷ ms) e (range, h) =
    let (a, b, c) = matched-bounds lucky ns ms (omega arith) h in
    (ground (arith, a, range), ground (arith, b, range), ground (arith, c, range))

-- A card pays the cost times the multipliers at the places of its lucky number, at most 2100:
-- from one to ten times the cost for each number that is the lucky one.
pub payout-matched :
    (lucky : ℤ) (numbers : List ℤ) {won : ℤ × ℕ}
    → length numbers ≡ 6
    → payout (pos 100) lucky numbers ≡ ok won
    → (won.0 ≡ pos (100 * matched lucky numbers prizes))
      × (won.1 ≡ count (λ n. same_int n lucky) numbers)
      × (won.1 ≤ matched lucky numbers prizes)
      × (100 * matched lucky numbers prizes ≤ 2100)
      × (matched lucky numbers prizes ≤ 10 * won.1)
unfolding payout sum_by
payout-matched lucky numbers {won} six e =
    let bad =
      not (same_int (pos 100) (pos 100))
      || (not (within 1 30 lucky) || any (λ n. not (within 1 30 n)) numbers) in
    let (_, paid) =
      >>-eq-ok (not bad) bad_card (ok (award (pos 100) lucky numbers prizes (pos 0, 0))) e in
    let whole : (
      pos (0 + 100 * matched lucky numbers prizes),
      0 + count (λ n. same_int n lucky) numbers,
    )
        ≡ won =
      sym (award-matched 100 0 0 lucky numbers prizes six) ∙ ok-injective paid in
    let prize : pos (0 + 100 * matched lucky numbers prizes) ≡ won.0 =
      ap (λ (x : ℤ × ℕ). x.0) whole in
    let hits : 0 + count (λ n. same_int n lucky) numbers ≡ won.1 = ap (λ (x : ℤ × ℕ). x.1) whole in
    let (low, high, each) =
      matched-bounds lucky numbers prizes six (refl, (refl, (refl, (refl, (refl, (refl, tt)))))) in
    (sym prize ∙ ap pos (omega arith), omega arith, omega arith, omega arith, omega arith)

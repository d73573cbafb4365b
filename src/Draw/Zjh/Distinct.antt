-- ===== src/Draw/Zjh/Distinct.antt =====
-- draw-games/verifier/src/zjh.rs: the cards that are dealt are different ones.
use bluffking.Prelude.{
  ℕ, zero, suc, ◌+◌, ◌*◌, ◌≤◌, ◌<◌, ◌≡◌, refl, sym, ap, ◌∙◌, ◌⊎◌, inl, inr, Bool, true, not, List,
  [], ◌∷◌, map, arith, ltb, ◌==◌, if◌then◌else◌, Bool-cases, length, All, count, take,
}
use bluffking.Draw.{ok, same, same-eq, codes}
use bluffking.Draw.Proof.{Crates, Reveal, Entropy, entropy}
use bluffking.Draw.Proof.Below.{HasWords}
use bluffking.Draw.Zjh.{Hand, range, valid_seats, deal, parse_draw_id}
use bluffking.Draw.Zjh.Id.{parse_draw_id-valid_seats}
use bluffking.Draw.Zjh.Deck.{deck-count}
use bluffking.Draw.Zjh.Codes.{code_text, code_text-injective}
use bluffking.Draw.Zjh.Dealt.{IsIndex, dealt_codes, deal_from-codes}

count-range_none : (from len k : ℕ) → k < from → count (λ i. i == k) (range from len) ≡ 0
unfolding count range
count-range_none from zero k h = refl
count-range_none from (suc len) k h =
    ground (arith, count-range_none (from + 1) len k (omega arith))

-- No index stands twice in a range.
count-range : (from len k : ℕ) → count (λ i. i == k) (range from len) ≤ 1
unfolding count range
count-range from zero k = omega arith
count-range from (suc len) k = elim (Bool-cases (from == k)) [
  | inl here ↦ ground (arith, here, count-range_none (from + 1) len k (ground (arith, here)))
  | inr other ↦ ground (arith, other, count-range (from + 1) len k)
]

range-IsIndex : (from len : ℕ) → from + len ≤ 52 → All IsIndex (range from len)
unfolding range
range-IsIndex from zero h = tt
range-IsIndex from (suc len) h = (omega arith, range-IsIndex (from + 1) len (omega arith))

count-zero_All : (xs : List ℕ) → count (λ i. not (ltb i 52)) xs ≡ 0 → All IsIndex xs
unfolding count
count-zero_All [] h = tt
count-zero_All (x ∷ xs) h = (ground arith, count-zero_All xs (ground arith))

All-count_zero : (xs : List ℕ) → All IsIndex xs → count (λ i. not (ltb i 52)) xs ≡ 0
unfolding count
All-count_zero [] h = refl
All-count_zero (x ∷ xs) (h, hs) = ground (arith, h, All-count_zero xs hs)

seats-bound : (seats : List ℕ) → valid_seats seats ≡ true → length seats ≤ 10
unfolding valid_seats
seats-bound seats h = ground arith

module _ (c : List ℕ) where
  is_code : ℕ → Bool
  is_code i = same c (code_text i)

  -- A code that stands for `k` stands for no other index.
  count-is_code :
      (xs : List ℕ) (k : ℕ)
      → k < 52
      → is_code k ≡ true
      → All IsIndex xs
      → count is_code xs ≤ count (λ i. i == k) xs
  unfolding count is_code
  count-is_code [] k low code h = omega arith
  count-is_code (x ∷ xs) k low code (h, hs) =
      let rest = count-is_code xs k low code hs in
      elim (Bool-cases (is_code x)) [
        | inl found ↦
            let equal : x ≡ k =
              code_text-injective x k h low
                (sym (same-eq c (code_text x) found) ∙ same-eq c (code_text k) code) in
            ground (arith, found, equal, rest)
        | inr other ↦ ground (arith, other, rest)
      ]

  -- Either no index of a list has this code, or one that has it is at hand.
  find-is_code :
      (xs : List ℕ)
      → All IsIndex xs
      → (count is_code xs ≡ 0) ⊎ ((k : ℕ) × (k < 52) × (is_code k ≡ true))
  unfolding count is_code
  find-is_code [] h = inl refl
  find-is_code (x ∷ xs) (h, hs) = elim (Bool-cases (is_code x)) [
    | inl found ↦ inr (x, h, found)
    | inr other ↦ elim (find-is_code xs hs) [
      | inl none_there ↦ inl (ground (arith, other, none_there))
      | inr there ↦ inr there
    ]
  ]

  -- A permutation of the deck's indices has each code at most once.
  permuted-once :
      (d : List ℕ) → ((p : ℕ → Bool) → count p d ≡ count p (range 0 52)) → count is_code d ≤ 1
  permuted-once d counts =
      let low = count-zero_All d (
        counts (λ i. not (ltb i 52))
        ∙ All-count_zero (range 0 52) (range-IsIndex 0 52 (omega arith))) in
      elim (find-is_code d low) [
        | inl none_there ↦ omega arith
        | inr (k, small, code) ↦
            omega
              (arith, count-is_code d k small code low, counts (λ i. i == k), count-range 0 52 k)
      ]

  count-map : (xs : List ℕ) → count (same c) (map code_text xs) ≡ count is_code xs
  unfolding count is_code
  count-map [] = refl
  count-map (x ∷ xs) = ap (λ n. (if same c (code_text x) then 1 else 0) + n) (count-map xs)

  count-take : (n : ℕ) (xs : List ℕ) → count is_code (take n xs) ≤ count is_code xs
  unfolding count take
  count-take zero xs = omega arith
  count-take (suc n) [] = omega arith
  count-take (suc n) (x ∷ xs) = ground (arith, count-take n xs)

module _ (crates : Crates) (fuel : ℕ) (enough : 8 ≤ fuel) where
  -- With an opened reveal each committed seat is dealt three cards, and no card is dealt twice, when
  -- every block of the stream has a word that is not among the first 16384 values.
  pub deal-count :
      (r : Reveal) {e : Entropy} (hand_id seats : List ℕ)
      → entropy crates r ≡ ok e
      → HasWords crates e.seed
      → same r.commitment.game (codes "zjh") ≡ true
      → parse_draw_id r.commitment.draw_id ≡ ok (hand_id, seats)
      → (dealt : List (ℕ × Hand)) × (deal crates fuel r ≡ ok dealt)
        × (map (λ (x : ℕ × Hand). x.0) dealt ≡ seats)
        × ((c : List ℕ) → count (same c) (dealt_codes dealt) ≤ 1)
  unfolding deal
  deal-count r {e} hand_id seats opened words game roster =
      let (d, drawn, len, counts) = deck-count crates fuel enough r opened words game in
      let low = count-zero_All d (
        counts (λ i. not (ltb i 52))
        ∙ All-count_zero (range 0 52) (range-IsIndex 0 52 (omega arith))) in
      let (dealt, done, kept, texts) = deal_from-codes d 0 seats low (
        ground (
          arith,
          seats-bound seats (parse_draw_id-valid_seats hand_id seats r.commitment.draw_id roster),
          len,
        )) in
      (
        dealt,
        rw roster (rw drawn done),
        kept,
        λ c. omega (
          arith,
          ap (count (same c)) texts,
          count-map c (take (3 * length seats) d),
          count-take c (3 * length seats) d,
          permuted-once c d counts,
        ),
      )

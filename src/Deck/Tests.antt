-- ===== src/Deck/Tests.antt =====
-- engine/src/deck.rs: a deck shuffled by a generator that counts.
use bluffking.Prelude.{
  drop, ℕ, ◌+◌, ◌%◌, ◌<◌, ◌≡◌, refl, inl, inr, some, [], ◌∷◌, arith, length, take,
}
use bluffking.Card.{Card}
use bluffking.Deck.{
  Rng, Deck, exhausted, full_deck, from_cards, from_le_bytes, deal, remaining, rng_range, new_deck,
}
use bluffking.Deck.Range.{HasWord, rng_range-HasWord}
use bluffking.Deck.Shuffle.{occurrences, new_deck-occurrences}
use bluffking.Deck.Deal.{deal_many, deal_many-take}

abbrev counter : Rng
counter = record { State = ℕ; fill_bytes = λ s. (s % 256 ∷ 0 ∷ 0 ∷ 0 ∷ 0 ∷ 0 ∷ 0 ∷ 0 ∷ [], s + 1) }

counter-HasWord : (s : ℕ) → HasWord counter 1 s
unfolding from_le_bytes
counter-HasWord s = (0, omega arith, omega arith)

rng_range-HasWord_example : (v : ℕ) × (s : ℕ) × (rng_range counter 1 5 52 ≡ some (v, s)) × (v < 52)
rng_range-HasWord_example =
    rng_range-HasWord counter 1 52 5 (omega arith) (omega arith) (counter-HasWord 5)

new_deck-occurrences_example :
    (d : Deck) × (s : ℕ) × (new_deck counter 1 7 ≡ some (d, s))
    × (d.next ≡ 0)
    × (length d.cards ≡ 52)
    × ((c : Card) → occurrences c d.cards ≡ 1)
new_deck-occurrences_example = new_deck-occurrences counter 1 counter-HasWord 7

deal_many-take_example :
    (d : Deck) × (deal_many 3 (from_cards full_deck) ≡ inr (take 3 (drop 0 full_deck), d))
    × (d.cards ≡ full_deck)
    × (d.next ≡ 3)
    × (remaining d + 3 ≡ remaining (from_cards full_deck))
unfolding remaining
deal_many-take_example = deal_many-take 3 (from_cards full_deck) (omega arith)

-- A deck without cards is exhausted.
no_cards : deal (from_cards []) ≡ inl exhausted
unfolding deal
no_cards = refl

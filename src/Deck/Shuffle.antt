-- ===== src/Deck/Shuffle.antt =====
-- engine/src/deck.rs: the cards of `Deck::new`.
use mathlib.Core.Option
use bluffking.Prelude.{
  get-in_range, ℕ, zero, suc, ◌+◌, ◌<◌, ◌≡◌, refl, subst, ◌∙◌, ◌⊎◌, inl, inr, Bool, some, List,
  arith, ◌==◌, Bool-cases, length, get_elem?, keep, modify, count, count-modify, length-modify,
  get_elem?-modify_ne, get_elem?-modify_self,
}
use bluffking.Card.{
  card_eq, Suit, spades, hearts, diamonds, clubs, Rank, two, three, four, five, six, seven, eight,
  nine, ten, jack, queen, king, ace, Card,
}
use bluffking.Deck.{Rng, Deck, full_deck, swap, shuffle, new_deck}
use bluffking.Deck.Range.{HasWord, rng_range-HasWord}

-- How often a card stands in a list.
abbrev pub occurrences : Card → List Card → ℕ
occurrences c = count (card_eq c)

moved {ℓ} :
    {A : Type ℓ} (xs : List A) (i j : ℕ) (a b : A)
    → get_elem? xs i ≡ some a
    → get_elem? xs j ≡ some b
    → get_elem? (modify xs i (λ _. b)) j ≡ some b
moved xs i j a b ea eb = elim (Bool-cases (i == j)) [
  | inl same ↦
      subst (λ k. get_elem? (modify xs i (λ _. b)) k ≡ some b) (ground arith)
        (get_elem?-modify_self xs i (λ _. b) a ea)
  | inr differ ↦ get_elem?-modify_ne xs i j (λ _. b) (ground arith) ∙ eb
]

-- Putting what stood at `j` at `i`, and what stood at `i` at `j`, keeps every count.
exchanged {ℓ} :
    {A : Type ℓ} (p : A → Bool) (xs : List A) (i j : ℕ) (a b : A)
    → get_elem? xs i ≡ some a
    → get_elem? xs j ≡ some b
    → count p (modify (modify xs i (λ _. b)) j (λ _. a)) ≡ count p xs
exchanged p xs i j a b ea eb = omega (
  arith,
  count-modify p xs i (λ _. b) a ea,
  count-modify p (modify xs i (λ _. b)) j (λ _. a) b (moved xs i j a b ea eb),
)

-- A swap in range gives a list with the same cards.
pub swap-count {ℓ} :
    {A : Type ℓ} (xs : List A) (i j : ℕ)
    → i < length xs
    → j < length xs
    → (ys : List A) × (swap xs i j ≡ some ys)
      × (length ys ≡ length xs)
      × ((p : A → Bool) → count p ys ≡ count p xs)
unfolding swap Option.bind
swap-count xs i j hi hj =
    let (a, ea) = get-in_range xs i hi in
    let (b, eb) = get-in_range xs j hj in
    (
      modify (modify xs i (λ _. b)) j (λ _. a),
      rw ea (rw eb refl),
      length-modify (modify xs i (λ _. b)) j (λ _. a) ∙ length-modify xs i (λ _. b),
      λ p. exchanged p xs i j a b ea eb,
    )

-- The suits of a rank, each once.
each_suit : (P : Suit → Type 0) → P spades → P hearts → P diamonds → P clubs → (s : Suit) → P s
each_suit P a b c d spades = a
each_suit P a b c d hearts = b
each_suit P a b c d diamonds = c
each_suit P a b c d clubs = d

abbrev IsOnce : Rank → Suit → Type 0
IsOnce r s = occurrences (record { rank = r; suit = s }) full_deck ≡ 1

full_deck-IsOnce : (r : Rank) (s : Suit) → IsOnce r s
unfolding count
full_deck-IsOnce two s = each_suit (IsOnce two) refl refl refl refl s
full_deck-IsOnce three s = each_suit (IsOnce three) refl refl refl refl s
full_deck-IsOnce four s = each_suit (IsOnce four) refl refl refl refl s
full_deck-IsOnce five s = each_suit (IsOnce five) refl refl refl refl s
full_deck-IsOnce six s = each_suit (IsOnce six) refl refl refl refl s
full_deck-IsOnce seven s = each_suit (IsOnce seven) refl refl refl refl s
full_deck-IsOnce eight s = each_suit (IsOnce eight) refl refl refl refl s
full_deck-IsOnce nine s = each_suit (IsOnce nine) refl refl refl refl s
full_deck-IsOnce ten s = each_suit (IsOnce ten) refl refl refl refl s
full_deck-IsOnce jack s = each_suit (IsOnce jack) refl refl refl refl s
full_deck-IsOnce queen s = each_suit (IsOnce queen) refl refl refl refl s
full_deck-IsOnce king s = each_suit (IsOnce king) refl refl refl refl s
full_deck-IsOnce ace s = each_suit (IsOnce ace) refl refl refl refl s

module _ (rng : Rng) (fuel : ℕ) (good : (s : rng.State) → HasWord rng fuel s) where
  shuffle-count :
      (i : ℕ) (s : rng.State) (xs : List Card)
      → (i ≡ 0) ⊎ (i < length xs)
      → i < 52
      → (ys : List Card) × (s' : rng.State) × (shuffle rng fuel s i xs ≡ some (ys, s'))
        × (length ys ≡ length xs)
        × ((p : Card → Bool) → count p ys ≡ count p xs)
  unfolding shuffle Option.bind
  shuffle-count zero s xs h k = (xs, s, refl, refl, λ p. refl)
  shuffle-count (suc i) s xs h k =
      let (j, s1, drawn, low) =
        rng_range-HasWord rng fuel (suc i + 1) s (omega arith) (omega arith) (good s) in
      let (ys, swapped, len, keep) =
        swap-count xs (suc i) j (ground (arith, h)) (ground (arith, h, low)) in
      let (zs, s2, rest, len2, keep2) =
        shuffle-count i s1 ys (inr (ground (arith, h, len))) (omega arith) in
      (zs, s2, rw drawn (rw swapped rest), len2 ∙ len, λ p. keep2 p ∙ keep p)

  -- With a generator that keeps giving accepted words, a new deck is at its first card and holds
  -- each of the 52 cards exactly once.
  pub new_deck-occurrences :
      (s : rng.State)
      → (d : Deck) × (s' : rng.State) × (new_deck rng fuel s ≡ some (d, s'))
        × (d.next ≡ 0)
        × (length d.cards ≡ 52)
        × ((c : Card) → occurrences c d.cards ≡ 1)
  unfolding new_deck
  new_deck-occurrences s =
      let (ys, s', done, len, keep) =
        shuffle-count 51 s full_deck (inr (omega arith)) (omega arith) in
      (
        record { cards = ys; next = 0 },
        s',
        rw done refl,
        refl,
        len,
        λ c. keep (card_eq c) ∙ full_deck-IsOnce c.rank c.suit,
      )

-- ===== src/Deck.antt =====
-- engine/src/deck.rs: the shuffled deck. The generator of the `rand_chacha` crate, which
-- engine/src/rng.rs wraps, is a parameter.
pub mod Range
mod Tests
pub mod Shuffle
pub mod Deal
use mathlib.Core.Option
use bluffking.Prelude.{
  ℕ, zero, suc, ◌+◌, ◌-◌, ◌*◌, ◌/◌, ◌%◌, ◌≤◌, ◌<◌, min, max, ◌≡◌, refl, sym, ap, subst, ◌∙◌, ◌≢◌,
  ◌↔◌, ◌⊎◌, inl, inr, Bool, true, false, not, ◌&&◌, ◌||◌, Option, none, some, List, [], ◌∷◌, ◌++◌,
  map, arith, ltb, leb, ◌==◌, if◌then◌else◌, if-elim, Bool-cases, Option-cases, ==_iff, ==_self,
  length, get_elem?, All, length-append, keep, length-map, All-append, All-if, modify, find,
  position, any, all, filter, count, sum_by, map-filter-IsNodup, sort_by-All, IsSorted,
  sort_by-IsSorted, filter-sort_by, take_while-filter, take, take_while, map-sort_by-IsNodup,
  map-take_while-IsNodup, contains-map-sort_by, contains-map-take_while, sum_by-add, sort, dedup,
  sum32, sum, IsAscending, Occurs, sum32-eq, sort-IsAscending, sort-Occurs, dedup-IsAscending,
  dedup-Occurs, insert_by, sort_by, contains, sum_by-sort_by, length-sort_by, IsNodup,
  contains-sort_by, sort_by-IsNodup, sum_by-take, sum_by-const, sum_by-map, add32, sub32, u32_mod,
  saturating_add, add32-eq, sub32-eq,
}
use bluffking.Card.{Suit, Rank, Card, all_ranks, all_suits}

-- What the code uses of the generator: `fill_bytes` on a buffer of eight bytes.
pub record Rng : Type 1 where
  pub State : Type 0
  pub fill_bytes : State → List ℕ × State

-- `u64::from_le_bytes`
unfoldable pub from_le_bytes : List ℕ → ℕ
from_le_bytes [] = 0
from_le_bytes (b ∷ bs) = b + 256 * from_le_bytes bs

pub record Deck : Type 0 where
  pub cards : List Card
  pub next : ℕ

pub data DeckError : Type 0 where
  exhausted : DeckError

-- `Deck::from_cards`
abbrev pub from_cards : List Card → Deck
from_cards cards = record { cards = cards; next = 0 }

-- The 52 cards in the order that the iterators give.
abbrev pub suited : Rank → List Suit → List Card
suited r [] = []
suited r (s ∷ ss) = record { rank = r; suit = s } ∷ suited r ss

abbrev pub ranked : List Rank → List Card
ranked [] = []
ranked (r ∷ rs) = suited r all_suits ++ ranked rs

abbrev pub full_deck : List Card
full_deck = ranked all_ranks

-- `u64::MAX - (u64::MAX % n)`
abbrev pub threshold : ℕ → ℕ
threshold n = 18446744073709551615 - 18446744073709551615 % n

-- `cards.swap(i, j)`; `none` stands for the panic on an index out of bounds.
unfoldable pub swap {ℓ} : {A : Type ℓ} → List A → ℕ → ℕ → Option (List A)
swap xs i j =
    Option.bind (get_elem? xs i)
      (λ a. Option.map (λ b. modify (modify xs i (λ _. b)) j (λ _. a)) (get_elem? xs j))

module _ (rng : Rng) where
  -- The next word and the state after it.
  abbrev pub word : rng.State → ℕ
  word s = from_le_bytes (rng.fill_bytes s).0

  abbrev pub after : rng.State → rng.State
  after s = (rng.fill_bytes s).1

  -- The rejection loop of `rng_range`, for at most so many words.
  unfoldable pub sample : ℕ → rng.State → ℕ → Option (ℕ × rng.State)
  sample zero s n = none
  sample (suc fuel) s n =
      let rest = sample fuel (after s) n in
      if ltb (word s) (threshold n) then some (word s % n, after s) else rest

  unfoldable pub rng_range : ℕ → rng.State → ℕ → Option (ℕ × rng.State)
  rng_range fuel s n = if leb n 1 then some (0, s) else sample fuel s n

  -- The Fisher-Yates loop from index `i` down to 1.
  unfoldable pub shuffle : ℕ → rng.State → ℕ → List Card → Option (List Card × rng.State)
  shuffle fuel s zero cards = some (cards, s)
  shuffle fuel s (suc i) cards = Option.bind (rng_range fuel s (suc i + 1)) (λ (j : ℕ × rng.State).
      Option.bind (swap cards (suc i) j.0) (λ cards'. shuffle fuel j.1 i cards'))

  -- `Deck::new`
  unfoldable pub new_deck : ℕ → rng.State → Option (Deck × rng.State)
  new_deck fuel s =
      Option.map (λ (x : List Card × rng.State). (from_cards x.0, x.1))
        (shuffle fuel s (length full_deck - 1) full_deck)

-- `Deck::deal`
unfoldable pub deal : Deck → DeckError ⊎ (Card × Deck)
deal d = elim (get_elem? d.cards d.next) [
  | none ↦ inl exhausted
  | some c ↦ inr (c, record d { next = d.next + 1 })
]

-- `Deck::remaining`
unfoldable pub remaining : Deck → ℕ
remaining d = length d.cards - d.next

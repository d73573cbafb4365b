-- ===== src/Card.antt =====
-- engine/src/card.rs and engine/src/hand.rs: suits, ranks, cards, and the cards of a hand.
pub mod Text
mod Tests
use bluffking.Prelude.{◌==◌, Bool, ◌&&◌, ℕ, ◌+◌, Option, none, some, List, [], ◌∷◌, ◌++◌}

pub data Suit : Type 0 where
  spades : Suit
  hearts : Suit
  diamonds : Suit
  clubs : Suit

pub data Rank : Type 0 where
  two : Rank
  three : Rank
  four : Rank
  five : Rank
  six : Rank
  seven : Rank
  eight : Rank
  nine : Rank
  ten : Rank
  jack : Rank
  queen : Rank
  king : Rank
  ace : Rank

pub record Card : Type 0 where
  pub rank : Rank
  pub suit : Suit

-- The positions of the variants, `as usize`.
abbrev pub rank_index : Rank → ℕ
rank_index two = 0
rank_index three = 1
rank_index four = 2
rank_index five = 3
rank_index six = 4
rank_index seven = 5
rank_index eight = 6
rank_index nine = 7
rank_index ten = 8
rank_index jack = 9
rank_index queen = 10
rank_index king = 11
rank_index ace = 12

abbrev pub suit_index : Suit → ℕ
suit_index spades = 0
suit_index hearts = 1
suit_index diamonds = 2
suit_index clubs = 3

-- The derived `==` of cards.
abbrev pub card_eq : Card → Card → Bool
card_eq a b = rank_index a.rank == rank_index b.rank && suit_index a.suit == suit_index b.suit

-- `Suit::ALL`
abbrev pub all_suits : List Suit
all_suits = spades ∷ hearts ∷ diamonds ∷ clubs ∷ []

-- `Rank::ALL`
abbrev pub all_ranks : List Rank
all_ranks =
    two ∷ three ∷ four ∷ five ∷ six ∷ seven ∷ eight ∷ nine ∷ ten ∷ jack ∷ queen ∷ king ∷ ace ∷ []

pub data Street : Type 0 where
  preflop : Street
  flop : Street
  turn : Street
  river : Street

pub record HoleCards : Type 0 where
  pub card1 : Card
  pub card2 : Card

pub record BoardCards : Type 0 where
  pub flop_cards : Option (Card × Card × Card)
  pub turn_card : Option Card
  pub river_card : Option Card

-- `HoleCards::as_array`
unfoldable pub as_array : HoleCards → List Card
as_array h = h.card1 ∷ h.card2 ∷ []

-- `BoardCards::empty`
abbrev pub empty_board : BoardCards
empty_board = record { flop_cards = none; turn_card = none; river_card = none }

abbrev pub flop_list : Option (Card × Card × Card) → List Card
flop_list none = []
flop_list (some (a, b, c)) = a ∷ b ∷ c ∷ []

abbrev pub street_list : Option Card → List Card
street_list none = []
street_list (some c) = c ∷ []

unfoldable pub all_cards : BoardCards → List Card
all_cards b = flop_list b.flop_cards ++ street_list b.turn_card ++ street_list b.river_card

-- `is_some()` as the number of cards it stands for.
abbrev pub weight : {A : Type 0} → ℕ → Option A → ℕ
weight n none = 0
weight n (some a) = n

-- `BoardCards::count`
unfoldable pub board_count : BoardCards → ℕ
board_count b = weight 3 b.flop_cards + weight 1 b.turn_card + weight 1 b.river_card

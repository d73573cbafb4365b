-- ===== src/Card/Text.antt =====
-- engine/src/card.rs: the two-character text of a card, `Display` and `parse_card`.
-- A character is its Unicode scalar value, and a string the list of its characters.
use bluffking.Prelude.{ℕ, ◌≡◌, refl, ◌||◌, Option, none, some, List, [], ◌∷◌, ◌==◌, if◌then◌else◌}
use mathlib.Core.Option
use bluffking.Card.{
  Suit, spades, hearts, diamonds, clubs, Rank, two, three, four, five, six, seven, eight, nine, ten,
  jack, queen, king, ace, Card,
}

-- `Suit::char`
abbrev pub suit_char : Suit → ℕ
suit_char spades = 115
suit_char hearts = 104
suit_char diamonds = 100
suit_char clubs = 99

-- `Rank::char`
abbrev pub rank_char : Rank → ℕ
rank_char two = 50
rank_char three = 51
rank_char four = 52
rank_char five = 53
rank_char six = 54
rank_char seven = 55
rank_char eight = 56
rank_char nine = 57
rank_char ten = 84
rank_char jack = 74
rank_char queen = 81
rank_char king = 75
rank_char ace = 65

-- `Display for Card`
unfoldable pub display : Card → List ℕ
display c = rank_char c.rank ∷ suit_char c.suit ∷ []

unfoldable pub parse_rank : ℕ → Option Rank
parse_rank c =
    if c == 50
    then some two
    else if c == 51
    then some three
    else if c == 52
    then some four
    else if c == 53
    then some five
    else if c == 54
    then some six
    else if c == 55
    then some seven
    else if c == 56
    then some eight
    else if c == 57
    then some nine
    else if c == 84 || c == 116
    then some ten
    else if c == 74 || c == 106
    then some jack
    else if c == 81 || c == 113
    then some queen
    else if c == 75 || c == 107
    then some king
    else if c == 65 || c == 97
    then some ace
    else none

unfoldable pub parse_suit : ℕ → Option Suit
parse_suit c =
    if c == 115 || c == 83
    then some spades
    else if c == 104 || c == 72
    then some hearts
    else if c == 100 || c == 68
    then some diamonds
    else if c == 99 || c == 67
    then some clubs
    else none

unfoldable pub parse_card : List ℕ → Option Card
parse_card (r ∷ s ∷ []) = elim (parse_rank r) [
  | none ↦ none
  | some rank ↦ Option.map (λ suit. record { rank = rank; suit = suit }) (parse_suit s)
]
parse_card _ = none

rank-char : (r : Rank) → parse_rank (rank_char r) ≡ some r
unfolding parse_rank
rank-char two = refl
rank-char three = refl
rank-char four = refl
rank-char five = refl
rank-char six = refl
rank-char seven = refl
rank-char eight = refl
rank-char nine = refl
rank-char ten = refl
rank-char jack = refl
rank-char queen = refl
rank-char king = refl
rank-char ace = refl

suit-char : (s : Suit) → parse_suit (suit_char s) ≡ some s
unfolding parse_suit
suit-char spades = refl
suit-char hearts = refl
suit-char diamonds = refl
suit-char clubs = refl

-- Every card is read back from the text that displays it.
pub parse_card-display : (c : Card) → parse_card (display c) ≡ some c
unfolding parse_card display
parse_card-display c = rw (rank-char c.rank, parse_card) (rw (suit-char c.suit) refl)

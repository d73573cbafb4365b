-- ===== src/Card/Tests.antt =====
-- engine/src/card.rs: cards read back from their text.
use bluffking.Prelude.{◌≡◌, refl, none, some, [], ◌∷◌}
use bluffking.Card.{Card, ten, hearts}
use bluffking.Card.Text.{display, parse_card, parse_rank, parse_suit, parse_card-display}

abbrev ten_of_hearts : Card
ten_of_hearts = record { rank = ten; suit = hearts }

-- `"tH"` is read as well, and `"Thx"` is not.
lower_case : parse_card (116 ∷ 72 ∷ []) ≡ some ten_of_hearts
unfolding parse_card parse_rank parse_suit
lower_case = refl

too_long : parse_card (84 ∷ 104 ∷ 120 ∷ []) ≡ none
unfolding parse_card
too_long = refl

parse_card-display_example : parse_card (display ten_of_hearts) ≡ some ten_of_hearts
parse_card-display_example = parse_card-display ten_of_hearts

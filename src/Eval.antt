-- ===== src/Eval.antt =====
-- engine/src/eval.rs: hand ranks with their derived order, and the ranking of players against a
-- board. The evaluator of the `rs_poker` crate is a parameter.
use bluffking.Prelude.{ℕ, Bool, ◌&&◌, ◌||◌, Option, none, some, List, map, ltb, leb, ◌==◌, sort_by}
use bluffking.Card.{Card, HoleCards, BoardCards}

pub data HandRank : Type 0 where
  high_card : ℕ → HandRank
  one_pair : ℕ → HandRank
  two_pair : ℕ → HandRank
  three_of_a_kind : ℕ → HandRank
  straight : ℕ → HandRank
  flush : ℕ → HandRank
  full_house : ℕ → HandRank
  four_of_a_kind : ℕ → HandRank
  straight_flush : ℕ → HandRank

-- The position of the variant, on which the derived order compares first.
unfoldable pub category : HandRank → ℕ
category (high_card v) = 0
category (one_pair v) = 1
category (two_pair v) = 2
category (three_of_a_kind v) = 3
category (straight v) = 4
category (flush v) = 5
category (full_house v) = 6
category (four_of_a_kind v) = 7
category (straight_flush v) = 8

unfoldable pub strength : HandRank → ℕ
strength (high_card v) = v
strength (one_pair v) = v
strength (two_pair v) = v
strength (three_of_a_kind v) = v
strength (straight v) = v
strength (flush v) = v
strength (full_house v) = v
strength (four_of_a_kind v) = v
strength (straight_flush v) = v

-- The derived `<=` and `==`.
unfoldable pub rank_leb : HandRank → HandRank → Bool
unfolding category strength
rank_leb a b =
    ltb (category a) (category b) || category a == category b && leb (strength a) (strength b)

unfoldable pub rank_eq : HandRank → HandRank → Bool
unfolding category strength
rank_eq a b = category a == category b && strength a == strength b

-- What the code uses of `rs_poker`: the empty hand, the insertion of a card (after `card_to_rs`)
-- and the rank of a hand (before `rs_rank_to_hand_rank`, which keeps the variant and its value).
pub record Evaluator : Type 1 where
  pub Hand : Type 0
  pub new_hand : Hand
  pub insert : Hand → Card → Hand
  pub rank : Hand → HandRank

module _ (ev : Evaluator) where
  abbrev insert_flop : Option (Card × Card × Card) → ev.Hand → ev.Hand
  insert_flop none hand = hand
  insert_flop (some (a, b, c)) hand = ev.insert (ev.insert (ev.insert hand a) b) c

  abbrev insert_street : Option Card → ev.Hand → ev.Hand
  insert_street none hand = hand
  insert_street (some c) hand = ev.insert hand c

  unfoldable pub board_eval : BoardCards → ev.Hand
  board_eval b =
      insert_street b.river_card (insert_street b.turn_card (insert_flop b.flop_cards ev.new_hand))

  unfoldable pub rank_with_board : ev.Hand → HoleCards → HandRank
  rank_with_board be hole = ev.rank (ev.insert (ev.insert be hole.card1) hole.card2)

  unfoldable pub rank_hand : HoleCards → BoardCards → HandRank
  rank_hand hole board = rank_with_board (board_eval board) hole

-- The order of the descending stable sort: `x` may stand before `y`.
unfoldable pub better : ℕ × HandRank → ℕ × HandRank → Bool
unfolding rank_leb
better x y = rank_leb y.1 x.1

unfoldable pub rank_players : Evaluator → List (ℕ × HoleCards) → BoardCards → List (ℕ × HandRank)
rank_players ev players board =
    let be = board_eval ev board in
    sort_by better (map (λ x. (x.0, rank_with_board ev be x.1)) players)

-- ===== src/Settle/Tests.antt =====
-- engine/src/game/pots.rs: a three-handed pot with a side pot, settled in each way.
use bluffking.Prelude.{
  sort_by, take, add32, map, ℕ, ◌+◌, ◌≡◌, refl, Bool, true, false, Option, some, List, [], ◌∷◌,
  arith, leb, ◌==◌, All, filter, count, sum_by, contains, IsNodup,
}
use bluffking.Card.{Card, HoleCards, empty_board, two, seven, king, ace, spades, hearts, rank_index}
use bluffking.Eval.{Evaluator, HandRank, high_card, rank_eq, rank_players}
use bluffking.Round.SidePots.{SidePot}
use bluffking.Settle.Seat.{button_relative_order, HandSeat, plain}
use bluffking.Settle.HandPots.{hand_side_pots, ante_of}
use bluffking.Settle.HandPaid.{distribute_pots-in_pot}
use bluffking.Settle.HandTotal.{in_pot}
use bluffking.Settle.Distribute.{
  distribute_pots, distribute_pots_uncontested, distribute_pots_among_survivors, tied_first,
}
use bluffking.Settle.Split.{split_pot, paid, key_leb, odd_chip_recipients}
use bluffking.Settle.Fair.{IsFair, split_pot-IsFair}
use bluffking.Settle.ButtonOrder.{button_relative_order-get}
use bluffking.Settle.Totals.{total_awarded, total_amount, IsPayable}
use bluffking.Settle.Contested.{ids_of, distribute_pots-total_awarded}
use bluffking.Settle.CardFree.{
  distribute_pots_uncontested-total_awarded, distribute_pots_among_survivors-total_awarded,
}
use bluffking.Settle.Forfeit.{won_by, distribute_pots-won_by}
use bluffking.Settle.Best.{IsBest, ranked_by, rank_players-IsBest}
use bluffking.Settle.RunTwice.{split_pots_for_two_runs, merge_run_pots}
use bluffking.Settle.RunTotals.{merge_run_pots-total_awarded}

-- An evaluator that adds up ranks.
abbrev sum_of_ranks : Evaluator
sum_of_ranks = record {
  Hand = ℕ;
  new_hand = 0;
  insert = λ hand c. hand + rank_index c.rank;
  rank = high_card;
}

abbrev holding : Card → Card → HoleCards
holding a b = record { card1 = a; card2 = b }

abbrev aces : HoleCards
aces = holding (record { rank = ace; suit = spades }) (record { rank = ace; suit = hearts })

abbrev kings : HoleCards
kings = holding (record { rank = king; suit = spades }) (record { rank = king; suit = hearts })

abbrev sevens : HoleCards
sevens = holding (record { rank = seven; suit = spades }) (record { rank = two; suit = hearts })

abbrev by_id : ℕ → Option ℕ
by_id pid = some pid

abbrev main_pot : SidePot
main_pot = record { cap = 50; amount = 151; eligible = 1 ∷ 2 ∷ 3 ∷ []; refund_to = [] }

abbrev side_pot : SidePot
side_pot = record { cap = 90; amount = 80; eligible = 2 ∷ 3 ∷ []; refund_to = [] }

abbrev two_pots : List SidePot
two_pots = main_pot ∷ side_pot ∷ []

program : Unit {0}
unfolding contains sum_by count ante_of
program = tt

two_pots-IsPayable : All IsPayable two_pots
unfolding program
two_pots-IsPayable = (
  (omega arith, (refl, (refl, (refl, tt))), tt, omega arith),
  ((omega arith, (refl, (refl, tt)), tt, omega arith), tt),
)

abbrev all_cards_shown : List (ℕ × HoleCards)
all_cards_shown = (1, kings) ∷ (2, aces) ∷ (3, aces) ∷ []

abbrev one_shown : List (ℕ × HoleCards)
one_shown = (1, kings) ∷ []

all_shown-IsNodup : IsNodup (ids_of all_cards_shown)
unfolding program
all_shown-IsNodup = (refl, (refl, (refl, tt)))

distribute_pots-total_awarded_example :
    total_awarded
      (distribute_pots sum_of_ranks by_id empty_board all_cards_shown (λ _. false) two_pots)
    ≡ total_amount two_pots
distribute_pots-total_awarded_example =
    distribute_pots-total_awarded sum_of_ranks by_id empty_board all_cards_shown (λ _. false)
      two_pots all_shown-IsNodup two_pots-IsPayable

distribute_pots_uncontested-total_awarded_example :
    total_awarded (distribute_pots_uncontested by_id (some 1) two_pots) ≡ total_amount two_pots
distribute_pots_uncontested-total_awarded_example =
    distribute_pots_uncontested-total_awarded by_id (some 1) two_pots two_pots-IsPayable

distribute_pots_among_survivors-total_awarded_example :
    total_awarded (distribute_pots_among_survivors by_id (1 ∷ []) two_pots) ≡ total_amount two_pots
unfolding program
distribute_pots_among_survivors-total_awarded_example =
    distribute_pots_among_survivors-total_awarded by_id (1 ∷ []) two_pots (refl, tt)
      two_pots-IsPayable

-- Players 2 and 3 withhold their cards, so that player 1 wins the side pot too.
distribute_pots-won_by_example :
    won_by 2 (distribute_pots sum_of_ranks by_id empty_board one_shown (λ pid. leb 2 pid) two_pots)
    ≡ 0
unfolding program
distribute_pots-won_by_example =
    distribute_pots-won_by 2 sum_of_ranks by_id empty_board one_shown (λ pid. leb 2 pid) two_pots
      refl refl (omega arith) (refl, (refl, tt))

rank_players-IsBest_example :
    (best : HandRank) × IsBest best (ranked_by sum_of_ranks empty_board all_cards_shown)
    × (tied_first (rank_players sum_of_ranks all_cards_shown empty_board)
        ≡ ids_of
            (filter (λ x. rank_eq x.1 best) (ranked_by sum_of_ranks empty_board all_cards_shown)))
rank_players-IsBest_example =
    rank_players-IsBest sum_of_ranks empty_board (1, kings) ((2, aces) ∷ (3, aces) ∷ [])

merge_run_pots-total_awarded_example :
    total_awarded (
      merge_run_pots two_pots
        (distribute_pots sum_of_ranks by_id empty_board all_cards_shown
          (λ _. false)
          (split_pots_for_two_runs two_pots).0)
        (distribute_pots sum_of_ranks by_id empty_board all_cards_shown
          (λ _. false)
          (split_pots_for_two_runs two_pots).1))
    ≡ total_amount two_pots
unfolding program
merge_run_pots-total_awarded_example =
    merge_run_pots-total_awarded sum_of_ranks by_id all_cards_shown (λ _. false) empty_board
      empty_board two_pots all_shown-IsNodup two_pots-IsPayable (omega arith)

abbrev seat_of : ℕ → ℕ → ℕ → Bool → HandSeat
seat_of pid start stack folded = record {
  player_id = pid;
  starting_stack = start;
  stack = stack;
  hole = plain aces;
  folded = folded;
  all_in = stack == 0;
  seat = pid;
}

abbrev seats : List HandSeat
seats = seat_of 1 50 0 false ∷ seat_of 2 100 10 false ∷ seat_of 3 100 10 true ∷ []

-- Player 2 posted an ante of 10; player 3 folded after putting in 90.
distribute_pots-in_pot_example :
    (pots : List SidePot) × (hand_side_pots (some (2, 10)) seats ≡ some pots)
    × All IsPayable pots
    × (total_awarded
          (distribute_pots sum_of_ranks by_id empty_board all_cards_shown (λ _. false) pots)
        ≡ sum_by in_pot seats)
unfolding program
distribute_pots-in_pot_example =
    distribute_pots-in_pot sum_of_ranks by_id empty_board all_cards_shown (λ _. false)
      (some (2, 10)) seats (omega arith, (omega arith, (omega arith, tt))) (omega arith)
      (omega arith, (omega arith, (omega arith, (omega arith, tt)))) (omega arith)
      (refl, (refl, (refl, tt))) (refl, (refl, (refl, tt)))

-- Two odd chips of a pot of 11 go to the players 1 and 2, whatever the order of the ids.
odd_chips : map (λ w. w.amount_won) (split_pot (3 ∷ 2 ∷ 1 ∷ []) 11 by_id) ≡ 3 ∷ 4 ∷ 4 ∷ []
unfolding split_pot paid odd_chip_recipients key_leb sort_by take contains add32
odd_chips = refl

split_pot-IsFair_example :
    All
      (λ w. All (IsFair by_id w) (split_pot (3 ∷ 2 ∷ 1 ∷ []) 11 by_id))
      (split_pot (3 ∷ 2 ∷ 1 ∷ []) 11 by_id)
split_pot-IsFair_example = split_pot-IsFair (3 ∷ 2 ∷ 1 ∷ []) 11 by_id (omega arith) (omega arith)

-- With the button at index 1 of three, the second seat to the left of it is at index 0.
abbrev first_seat : HandSeat
first_seat = seat_of 1 50 0 false

button_relative_order-get_example : button_relative_order seats 1 first_seat.player_id ≡ some 1
unfolding program
button_relative_order-get_example =
    button_relative_order-get seats 1 1 first_seat (refl, (refl, (refl, tt))) (omega arith) refl

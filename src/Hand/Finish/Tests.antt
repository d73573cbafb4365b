-- ===== src/Hand/Finish/Tests.antt =====
-- The end of a concrete blind hand whose players have both shown their cards.
use mathlib.Core.Option
use bluffking.Prelude.{ℕ, ◌+◌, ◌≡◌, refl, false, List, [], ◌∷◌, filter}
use bluffking.Card.{rank_index, ace, king, two, spades, hearts, HoleCards}
use bluffking.Eval.{Evaluator, high_card}
use bluffking.Settle.Seat.{HandSeat, revealed}
use bluffking.Settle.Split.{PotResult}
use bluffking.Settle.HandPots.{contribution, contributed, hand_side_pots}
use bluffking.Hand.State.{Hand, finished, new_blind}
use bluffking.Hand.Finish.{Finished, paid, all_shown, finish_blind, finish_blind_with_forfeits}
use bluffking.Hand.Finish.Agree.{finish_blind-finish_blind_with_forfeits}

-- An evaluator that adds up ranks.
abbrev sum_of_ranks : Evaluator
sum_of_ranks = record {
  Hand = ℕ;
  new_hand = 0;
  insert = λ hand c. hand + rank_index c.rank;
  rank = high_card;
}

abbrev showing : ℕ → HoleCards → HandSeat
showing player_id hole = record {
  player_id = player_id;
  starting_stack = 100;
  stack = 90;
  hole = revealed hole;
  folded = false;
  all_in = false;
  seat = player_id;
}

abbrev at_showdown : Hand
at_showdown = record (new_blind [] 0 10 5) {
  seats =
      showing 1 (record {
        card1 = record { rank = ace; suit = spades };
        card2 = record { rank = two; suit = spades };
      })
      ∷ showing 2 (record {
        card1 = record { rank = king; suit = hearts };
        card2 = record { rank = two; suit = hearts };
      })
      ∷ [];
  phase = finished;
}

abbrev results_of : Finished → List PotResult
results_of (paid results) = results
results_of _ = []

abbrev results : List PotResult
results = results_of (finish_blind sum_of_ranks at_showdown)

is_paid : finish_blind sum_of_ranks at_showdown ≡ paid results
unfolding finish_blind all_shown hand_side_pots contributed contribution filter Option.bind
is_paid = refl

finish_blind-finish_blind_with_forfeits_example :
    finish_blind_with_forfeits sum_of_ranks at_showdown ≡ paid results
finish_blind-finish_blind_with_forfeits_example =
    finish_blind-finish_blind_with_forfeits sum_of_ranks at_showdown results is_paid

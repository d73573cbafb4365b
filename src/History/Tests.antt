-- ===== src/History/Tests.antt =====
-- engine/src/game/pots.rs: a flop with a bet, a short all-in that raises and a call.
use bluffking.Prelude.{
  Option, sum_by, ℕ, ◌-◌, ◌≡◌, refl, Bool, true, false, some, List, [], ◌∷◌, arith, find, position,
  any, filter, count, rotate, take,
}
use bluffking.Action.{PlayerAction, check, call, raise, all_in, blind, big}
use bluffking.Card.{Street, preflop, flop}
use bluffking.Settle.Seat.{HandSeat, is_in, opaque}
use bluffking.History.{
  ActionRecord, replay, street_action_facts, last_increase, last_betting_street, aggressor_on,
  last_aggressor, walk, first_in, compute_show_order,
}
use bluffking.History.LastRaise.{IsLastRaiser}
use bluffking.History.Start.{IsStart}
use bluffking.History.ShowOrder.{ids_of_seats, compute_show_order-rotate}

abbrev acted : Street → ℕ → PlayerAction → ℕ → ActionRecord
acted street pid action amount = record {
  seq = 0;
  street = street;
  player_id = pid;
  action = action;
  amount = amount;
  stack_before = 100;
  stack_after = 100 - amount;
  pot_before = 0;
  pot_after = 0;
}

abbrev actions : List ActionRecord
actions =
    acted preflop 1 (blind big 10) 10
    ∷ acted flop 1 check 0
    ∷ acted flop 2 (raise 20) 20
    ∷ acted flop 3 all_in 25
    ∷ acted flop 1 call 25
    ∷ acted flop 2 call 5
    ∷ []

abbrev seat_of : ℕ → Bool → HandSeat
seat_of pid folded = record {
  player_id = pid;
  starting_stack = 100;
  stack = 50;
  hole = opaque;
  folded = folded;
  all_in = false;
  seat = pid;
}

abbrev seats : List HandSeat
seats = seat_of 1 false ∷ seat_of 2 false ∷ seat_of 3 false ∷ seat_of 4 true ∷ []

program : Unit {0}
unfolding sum_by replay street_action_facts last_increase last_betting_street aggressor_on
    last_aggressor walk first_in compute_show_order find any filter count position take
program = tt

-- The all-in of player 3 raised the bet, though by less than a full raise.
aggressor : last_aggressor 10 10 actions ≡ some (some 3)
unfolding program
aggressor = refl

order : compute_show_order 10 10 actions seats 0 ≡ some (3 ∷ 1 ∷ 2 ∷ [])
unfolding program
order = refl

compute_show_order-rotate_example :
    (raiser : Option ℕ) × (k : ℕ) × IsLastRaiser 10 10 actions raiser
    × IsStart seats 0 raiser k
    × (compute_show_order 10 10 actions seats 0
        ≡ some (ids_of_seats (filter is_in (rotate k seats))))
unfolding program
compute_show_order-rotate_example =
    compute_show_order-rotate seats 10 10 actions 0 (omega arith) (omega arith)

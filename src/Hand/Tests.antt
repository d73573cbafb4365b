-- ===== src/Hand/Tests.antt =====
-- Concrete blind hands: a heads-up table from the blinds to a board and a showdown.
use bluffking.Prelude.{
  ℕ, ◌+◌, ◌-◌, ◌≡◌, refl, Bool, true, false, none, some, List, [], ◌∷◌, ◌++◌, arith, if◌then◌else◌,
  modify, find, position, any, all, filter, count, sum_by, sort, dedup, sum32, sum, add32, sub32,
}
use bluffking.Action.{Result, ok, PlayerAction, check, call, blind, small, big}
use bluffking.Card.{Card, ace, king, two, preflop, flop, spades, hearts, all_cards}
use bluffking.Settle.Seat.{HandSeat, opaque}
use bluffking.History.{ActionRecord}
use bluffking.Round.State.{PlayerState, player_can_raise, to_call, player_folded, player_all_in}
use bluffking.Round.Turn.{advance, seek_active, check_done}
use bluffking.Round.Action.{apply_action, effect, permitted, finish_action}
use bluffking.Round.Open.{new, new_preflop}
use bluffking.Round.SidePots.{
  side_pots, is_nil, pots_above, layer, push_layer, share_of, lone_refund,
}
use bluffking.Hand.State.{finished, Hand, betting, set_done, current_street}
use bluffking.Hand.Act.{settle_action, apply_action_inner}
use bluffking.Hand.Start.{
  start, collect_antes, forced_blind_positions, blind_positions, post_big_blind_ante,
  deal_hole_cards, open_preflop,
}
use bluffking.Hand.Board.{check_unique, all_revealed, inject_board_for_street}
use bluffking.Hand.Board.Distinct.{IsDistinct}
use bluffking.Hand.Reach.{
  Step, started, acted, board_given, Reaches, here, after, Options, blind_hand,
}
use bluffking.Hand.Street.{
  sync_stacks_from_round, absorb_round, open_round, reveal_street, active_loop, close_streets,
  set_board_for_street, close_street_and_advance,
}
use bluffking.Hand.Finish.{finish_blind_forfeit_board, withheld, force_fold_all, force_fold}
use bluffking.Hand.Snapshot.{snapshot, actor_read}
use bluffking.Settle.HandPots.{hand_side_pots, contributed, contribution}
use mathlib.Core.Option.{bind}
use bluffking.Hand.Advance.{Closes, close-Advances}
use bluffking.Hand.Reach.Lifecycle.{Move}
use bluffking.Hand.Reach.Phases.{Step-Move}
use bluffking.Hand.Reach.Hidden.{Reaches-all_revealed}
use bluffking.Hand.Reach.Distinct.{Reaches-IsDistinct}

abbrev plain_options : Options
plain_options = record { straddle = 0; bomb = 0; ante = 0; bba = 0; dead_small = false }

abbrev two_players : List (ℕ × ℕ × ℕ)
two_players = (11, 100, 1) ∷ (22, 100, 2) ∷ []

abbrev table : Hand
table = blind_hand plain_options two_players 0 10 5

abbrev hand_or : Hand → Result Hand → Hand
hand_or h (ok h') = h'
hand_or h _ = h

abbrev begun : Hand
begun = hand_or table (start table)

abbrev seated_at : ℕ → ℕ → ℕ → HandSeat
seated_at player_id stack seat = record {
  player_id = player_id;
  starting_stack = 100;
  stack = stack;
  hole = opaque;
  folded = false;
  all_in = false;
  seat = seat;
}

abbrev betting_player : ℕ → ℕ → Bool → PlayerState
betting_player player_id contributed has_acted = record {
  player_id = player_id;
  stack = 90;
  contributed = contributed;
  folded = false;
  all_in = false;
  has_acted = has_acted;
  acted_at_bet = if has_acted then contributed else 0;
}

abbrev logged : ℕ → ℕ → PlayerAction → ℕ → ℕ → ℕ → ActionRecord
logged seq player_id action amount stack_before pot_before = record {
  seq = seq;
  street = preflop;
  player_id = player_id;
  action = action;
  amount = amount;
  stack_before = stack_before;
  stack_after = stack_before - amount;
  pot_before = pot_before;
  pot_after = pot_before + amount;
}

abbrev three_logged : List ActionRecord
three_logged =
    logged 0 11 (blind small 5) 5 100 0
    ∷ logged 1 22 (blind big 10) 10 100 5
    ∷ logged 2 11 call 5 95 15
    ∷ []

-- After the small blind's call.
abbrev called : Hand
called = record table {
  seats = seated_at 11 90 1 ∷ seated_at 22 90 2 ∷ [];
  phase = betting preflop;
  betting_round = some (record {
    players = betting_player 11 10 true ∷ betting_player 22 10 false ∷ [];
    current = 1;
    current_bet = 10;
    last_raise_amount = 10;
    pot_total = 20;
    done = false;
    actions_remaining = 1;
    n_can_act = 2;
  });
  actions = three_logged;
  action_seq = 3;
}

-- After the big blind's check: the flop is awaited.
abbrev checked : Hand
checked = record called {
  phase = betting flop;
  betting_round = some (record {
    players = betting_player 11 0 false ∷ betting_player 22 0 false ∷ [];
    current = 1;
    current_bet = 0;
    last_raise_amount = 10;
    pot_total = 0;
    done = false;
    actions_remaining = 2;
    n_can_act = 2;
  });
  completed_pot = 20;
  cumulative_side_pots =
      record { cap = 10; amount = 20; eligible = 11 ∷ 22 ∷ []; refund_to = [] } ∷ [];
  actions = three_logged ++ (logged 3 22 check 0 90 20 ∷ []);
  action_seq = 4;
  pending_board_street = some flop;
}

abbrev the_flop : List Card
the_flop =
    record { rank = ace; suit = spades }
    ∷ record { rank = king; suit = spades }
    ∷ record { rank = two; suit = hearts }
    ∷ []

abbrev on_flop : Hand
on_flop = record checked {
  board = record {
    flop_cards = some (
      record { rank = ace; suit = spades },
      record { rank = king; suit = spades },
      record { rank = two; suit = hearts },
    );
    turn_card = none;
    river_card = none;
  };
  pending_board_street = none;
}

program : Unit {0}
unfolding start collect_antes forced_blind_positions blind_positions post_big_blind_ante
    deal_hole_cards open_preflop sync_stacks_from_round absorb_round open_round reveal_street
    active_loop close_streets set_board_for_street set_done current_street apply_action_inner
    settle_action inject_board_for_street check_unique all_revealed all_cards new_preflop new
    apply_action player_can_raise advance seek_active check_done effect permitted finish_action
    to_call player_folded player_all_in side_pots is_nil pots_above layer push_layer share_of
    lone_refund sort dedup sum32 sum sum_by find position any all filter count modify add32 sub32
    snapshot actor_read hand_side_pots bind contributed contribution
program = tt

start_step : Step table begun
unfolding program
start_step = started table begun refl

call_step : Step begun called
unfolding program
call_step = acted begun called 11 call false false refl

check_step : Step called checked
unfolding program
check_step = acted called checked 22 check false true refl

flop_step : Step checked on_flop
unfolding program
flop_step = board_given checked on_flop the_flop refl

awaited : Reaches table checked
awaited =
    after called checked (after begun called (after table begun here start_step) call_step)
      check_step

-- A withheld board ends a hand that is not started.
withheld_unstarted : (finish_blind_forfeit_board table (11 ∷ [])).0.phase ≡ finished
unfolding program finish_blind_forfeit_board withheld force_fold_all force_fold
withheld_unstarted = refl

reached : Reaches table on_flop
reached = after checked on_flop awaited flop_step

Step-Move_example : Move checked.phase on_flop.phase
Step-Move_example = Step-Move plain_options two_players 0 10 5 checked on_flop awaited flop_step

Reaches-all_revealed_example : all_revealed on_flop.seats ≡ []
Reaches-all_revealed_example =
    Reaches-all_revealed plain_options two_players 0 10 5 on_flop reached refl

Reaches-IsDistinct_example : IsDistinct on_flop
Reaches-IsDistinct_example = Reaches-IsDistinct plain_options two_players 0 10 5 on_flop reached

close-Advances_example : Closes checked (close_street_and_advance checked)
unfolding program
close-Advances_example = close-Advances checked (omega arith) (omega arith, (omega arith, tt))

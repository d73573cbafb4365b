-- ===== src/Round/Tests.antt =====
-- engine/src/round.rs: runs of a street on small tables.
use bluffking.Prelude.{
  ℕ, ◌≡◌, ◌≢◌, ◌≤◌, ◌⊎◌, refl, List, [], ◌∷◌, some, true, false, arith, find, position, any, all,
  filter, count, modify, add32, sub32, sort, dedup, sum32, sum_by, All,
}
use bluffking.Action.{PlayerAction, fold, check, call, raise, all_in, ok, err, panicked}
use bluffking.Round.State.{
  PlayerState, BettingRound, current_player, player_can_raise, min_raise_to,
}
use bluffking.Round.Turn.{advance, seek_active, check_done}
use bluffking.Round.Action.{apply_action, forfeit_player, effect, permitted, finish_action}
use bluffking.Round.Open.{new, new_preflop}
use bluffking.Round.Counted.{stakes}
use bluffking.Round.Valid.{IsValid, Conserves, apply_action-Conserves}
use bluffking.Round.Forfeit.{forfeit_player-Conserves}
use bluffking.Round.Started.{new-IsValid, new_preflop-IsValid}
use bluffking.Round.Progress.{Accepts, actor-Accepts, operations-ne-panicked}
use bluffking.Round.Legal.{MayRaise, raised-MayRaise, raise-min_raise_to}
use bluffking.Round.SidePots.{
  side_pots, is_nil, pots_above, layer, push_layer, share_of, lone_refund,
}
use bluffking.Round.SidePots.Layer.{pot_amounts}
use bluffking.Round.SidePots.Sum.{side_pots-pot_total}
use bluffking.Round.SidePots.Eligible.{IsLayer, side_pots-IsLayer}

-- Applies actions of the current player, and keeps the round where one is refused.
abbrev play : BettingRound → List (ℕ × PlayerAction) → BettingRound
play r [] = r
play r ((id, a) ∷ rest) =
    play (elim (apply_action r id a) [ ok (moved, next) ↦ next | err e ↦ r | panicked ↦ r ]) rest

abbrev stacks : List (ℕ × ℕ)
stacks = (1, 100) ∷ (2, 100) ∷ (3, 40) ∷ []

-- Three players, blinds 5 and 10, the button first to act.
abbrev three_handed : BettingRound
three_handed = new_preflop stacks 0 ((2, 5) ∷ (3, 10) ∷ []) 10

program : Unit {0}
unfolding new_preflop apply_action player_can_raise advance seek_active check_done effect permitted
    finish_action forfeit_player side_pots is_nil pots_above layer push_layer share_of lone_refund
    sort dedup sum32 sum_by current_player find position any all filter count modify add32 sub32
program = tt

limped : (play three_handed ((1, call) ∷ (2, call) ∷ (3, check) ∷ [])).done ≡ true
unfolding program
limped = refl

raised : current_player (play three_handed ((1, raise 30) ∷ (2, fold) ∷ [])) ≡ some 3
unfolding program
raised = refl

shoved :
    (play three_handed ((1, raise 30) ∷ (2, fold) ∷ (3, all_in) ∷ (1, call) ∷ [])).pot_total ≡ 85
unfolding program
shoved = refl

abbrev shoved_round : BettingRound
shoved_round = play three_handed ((1, raise 30) ∷ (2, fold) ∷ (3, all_in) ∷ (1, call) ∷ [])

-- The folded blind stays in the main pot, which two players contest.
shoved_pots :
    side_pots shoved_round
    ≡ record { cap = 5; amount = 15; eligible = 1 ∷ 3 ∷ []; refund_to = [] }
      ∷ record { cap = 40; amount = 70; eligible = 1 ∷ 3 ∷ []; refund_to = [] }
      ∷ []
unfolding program
shoved_pots = refl

new_preflop-IsValid_example : IsValid three_handed × (stakes three_handed.players ≡ stacks)
unfolding sum_by
new_preflop-IsValid_example = new_preflop-IsValid stacks 0 ((2, 5) ∷ (3, 10) ∷ []) 10 (omega arith)

new-IsValid_example : IsValid (new stacks 1 0 10) × (stakes (new stacks 1 0 10).players ≡ stacks)
unfolding sum_by
new-IsValid_example = new-IsValid stacks 1 0 10 (omega arith)

three_handed-IsValid : IsValid three_handed
three_handed-IsValid = new_preflop-IsValid_example.0

apply_action-Conserves_example : Conserves three_handed 30 (play three_handed ((1, raise 30) ∷ []))
unfolding program
apply_action-Conserves_example =
    apply_action-Conserves three_handed 1 (raise 30) 30 (play three_handed ((1, raise 30) ∷ []))
      three_handed-IsValid refl

forfeit_player-Conserves_example :
    (◌≡◌ {A = ℕ} 0 0)
    × Conserves three_handed 0 (elim (forfeit_player three_handed 3) [
      | ok (moved, next) ↦ next
      | err e ↦ three_handed
      | panicked ↦ three_handed
    ])
unfolding program
forfeit_player-Conserves_example =
    forfeit_player-Conserves three_handed 3 0 _ three_handed-IsValid refl

actor-Accepts_example :
    (p : PlayerState) × (current_player three_handed ≡ some p.player_id)
    × Accepts three_handed p.player_id fold
    × Accepts three_handed p.player_id call
    × (three_handed.current_bet ≤ p.contributed → Accepts three_handed p.player_id check)
unfolding program
actor-Accepts_example = actor-Accepts three_handed three_handed-IsValid refl

operations-ne-panicked_example :
    (apply_action three_handed 2 (raise 7) ≢ panicked) × (forfeit_player three_handed 2 ≢ panicked)
operations-ne-panicked_example =
    operations-ne-panicked three_handed 2 (raise 7) three_handed-IsValid

raised-MayRaise_example : MayRaise three_handed
unfolding program
raised-MayRaise_example =
    raised-MayRaise three_handed 1 (raise 30) 30 (play three_handed ((1, raise 30) ∷ []))
      three_handed-IsValid refl (omega arith)

abbrev button_state : PlayerState
button_state = record {
  player_id = 1;
  stack = 100;
  contributed = 0;
  folded = false;
  all_in = false;
  has_acted = false;
  acted_at_bet = 0;
}

raise-min_raise_to_example :
    (◌≤◌ 30 100) × ((min_raise_to three_handed ≤ 30) ⊎ (◌≡◌ {A = ℕ} 30 100) × (◌≡◌ {A = ℕ} 30 100))
unfolding program
raise-min_raise_to_example =
    raise-min_raise_to three_handed 1 30 30 button_state (play three_handed ((1, raise 30) ∷ []))
      three_handed-IsValid refl refl

side_pots-pot_total_example : pot_amounts (side_pots three_handed) ≡ 15
unfolding program
side_pots-pot_total_example = side_pots-pot_total three_handed three_handed-IsValid (omega arith)

side_pots-IsLayer_example : All (IsLayer shoved_round.players) (side_pots shoved_round)
side_pots-IsLayer_example = side_pots-IsLayer shoved_round

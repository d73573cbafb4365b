-- ===== src/Hand/Act.antt =====
-- engine/src/game/actions.rs: an action of a player, or the fold that the server makes for one.
use bluffking.Prelude.{
  ltb, ℕ, ◌+◌, ◌-◌, min, Bool, true, false, ◌&&◌, Option, none, some, [], ◌∷◌, ◌++◌, map, ◌==◌,
  if◌then◌else◌, find, add32,
}
use bluffking.Action.{
  Result, err, ok, ◌>>=◌, PlayerAction, fold, check, call, not_in_hand, hand_finished,
  hand_not_started,
}
use bluffking.Settle.Seat.{HandSeat}
use bluffking.Round.State.{BettingRound, to_call, player_folded, player_all_in}
use bluffking.Round.Action.{apply_action, forfeit_player}
use bluffking.Hand.Snapshot.{snapshot}
use bluffking.Hand.State.{Hand, not_started, betting, finished, current_street}
use bluffking.Hand.Street.{close_street_and_advance}

-- What is left of a stack: `saturating_sub` is the subtraction of ℕ.
abbrev pub left_of : ℕ → ℕ → ℕ
left_of stack moved = stack - moved

-- `u16::saturating_add(1)`
abbrev pub next_seq : ℕ → ℕ
next_seq seq = min (seq + 1) 65535

abbrev pub round_pot : Option BettingRound → ℕ
round_pot none = 0
round_pot (some r) = r.pot_total

-- `pot_before`
abbrev pub live_pot : Hand → ℕ
live_pot h = add32 h.completed_pot (round_pot h.betting_round)

abbrev pub is_call : PlayerAction → Bool
is_call call = true
is_call _ = false

abbrev pub due_of : Option BettingRound → ℕ → ℕ
due_of none player_id = 0
due_of (some r) player_id = to_call r player_id

-- A call of nothing is recorded as a check.
abbrev pub recorded_action : Hand → ℕ → PlayerAction → PlayerAction
recorded_action h player_id action =
    if is_call action && due_of h.betting_round player_id == 0 then check else action

-- The seats of the player after the round's operation.
abbrev pub sync_seat : ℕ → ℕ → BettingRound → HandSeat → HandSeat
sync_seat player_id stack_after r s =
    if s.player_id == player_id
    then record s {
      stack = stack_after;
      folded = player_folded r player_id;
      all_in = player_all_in r player_id;
    }
    else s

-- The hand once the round gives the chips that moved and its new state.
unfoldable pub settle_action : Hand → ℕ → PlayerAction → ℕ → ℕ × BettingRound → Hand
settle_action h player_id action stack_before (moved, r) =
    let stack_after = left_of stack_before moved in
    record h {
      betting_round = some r;
      seats = map (sync_seat player_id stack_after r) h.seats;
      actions =
          h.actions
          ++ (record {
            seq = h.action_seq;
            street = current_street h;
            player_id = player_id;
            action = recorded_action h player_id action;
            amount = moved;
            stack_before = stack_before;
            stack_after = stack_after;
            pot_before = live_pot h;
            pot_after = add32 (live_pot h) moved;
          }
              ∷ []);
      action_seq = next_seq h.action_seq;
    }

-- The street closes with the round.
abbrev pub close_if_done : BettingRound → Hand → Result (Hand × Bool)
close_if_done r h =
    if r.done
    then close_street_and_advance h >>= (λ h'. ok (h', true))
    else snapshot h >>= (λ h'. ok (h', false))

-- The event `PotUpdated` reads the pots when chips moved, as a snapshot does.
abbrev pub pot_updated : ℕ → Hand → Result Hand
pot_updated moved h = if ltb 0 moved then snapshot h else ok h

abbrev pub finish_step : Hand → ℕ → PlayerAction → ℕ → ℕ × BettingRound → Result (Hand × Bool)
finish_step h player_id action stack_before (moved, r) =
    pot_updated moved (settle_action h player_id action stack_before (moved, r)) >>= close_if_done r

-- The round's operation of an action or of a forfeit.
abbrev pub round_step : Bool → ℕ → PlayerAction → BettingRound → Result (ℕ × BettingRound)
round_step forfeit player_id action r =
    if forfeit then forfeit_player r player_id else apply_action r player_id action

-- The action of a seat that was found, in a hand that is being bet on.
abbrev pub act_at : Hand → ℕ → PlayerAction → Bool → HandSeat → Result (Hand × Bool)
act_at h player_id action forfeit s = elim h.betting_round [
  | none ↦ err hand_finished
  | some r ↦ round_step forfeit player_id action r >>= finish_step h player_id action s.stack
]

-- `apply_action_inner`; the Boolean says whether the round of the action is done.
unfoldable pub apply_action_inner : Hand → ℕ → PlayerAction → Bool → Result (Hand × Bool)
apply_action_inner h player_id action forfeit = elim h.phase [
  | not_started ↦ err hand_not_started
  | finished ↦ err hand_finished
  | betting street ↦ elim (find (λ (s : HandSeat). s.player_id == player_id) h.seats) [
    | none ↦ err not_in_hand
    | some s ↦ act_at h player_id action forfeit s
  ]
]

abbrev pub hand_of : Hand × Bool → Result Hand
hand_of (h, closed) = ok h

-- `GameHand::apply_action`
abbrev pub act : Hand → ℕ → PlayerAction → Result Hand
act h player_id action = apply_action_inner h player_id action false >>= hand_of

-- `GameHand::forfeit_player`
abbrev pub forfeit : Hand → ℕ → Result Hand
forfeit h player_id = apply_action_inner h player_id fold true >>= hand_of

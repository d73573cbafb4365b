-- ===== src/Round/Action.antt =====
-- engine/src/round.rs: `BettingRound::apply_action` and `forfeit_player`. A refused action returns
-- before anything is written, so an error leaves the round as it was.
use bluffking.Prelude.{
  ℕ, ◌+◌, ◌-◌, Bool, true, false, not, ◌&&◌, ◌||◌, none, some, List, [], ◌∷◌, min, ltb, leb, ◌==◌,
  if◌then◌else◌, get_elem?, modify, position, count, saturating_add, add32, sub32,
}
use bluffking.Action.{
  PlayerAction, fold, check, call, raise, all_in, blind, Result, ok, err, panicked, ◌>>=◌, ◌>>◌,
  guard, not_your_turn, invalid_action, below_min_raise, not_in_hand, hand_finished, already_folded,
}
use bluffking.Round.State.{
  PlayerState, BettingRound, is_live, is_empty, player_can_raise, action_reopened_for,
}
use bluffking.Round.Turn.{advance, check_done}

-- `self.players[idx]`
abbrev pub player_at : BettingRound → ℕ → Result PlayerState
player_at r idx = elim (get_elem? r.players idx) [ none ↦ panicked | some p ↦ ok p ]

-- Would the action end above the current bet?
unfoldable pub is_aggressive_attempt : BettingRound → PlayerState → PlayerAction → Bool
is_aggressive_attempt r p (raise amount) = ltb r.current_bet amount
is_aggressive_attempt r p all_in = ltb r.current_bet (saturating_add p.contributed p.stack)
is_aggressive_attempt r p action = false

-- The second test, for a player whose action was not reopened.
unfoldable pub is_raise_attempt : BettingRound → PlayerState → PlayerAction → Bool
is_raise_attempt r p (raise raise_to) =
    not ((raise_to - p.contributed) == p.stack && leb raise_to r.current_bet)
is_raise_attempt r p all_in = ltb r.current_bet (add32 p.contributed p.stack)
is_raise_attempt r p action = false

-- Moves `amount` from the stack of player `idx` into the pot.
abbrev pub commit : BettingRound → ℕ → ℕ → BettingRound
commit r idx amount = record r {
  players =
      modify r.players idx
        λ p. record p { contributed = add32 p.contributed amount; stack = sub32 p.stack amount };
  pot_total = add32 r.pot_total amount;
}

-- Flags player `idx` all-in if the contribution emptied the stack.
unfoldable pub mark_all_in_if_broke : BettingRound → ℕ → BettingRound
mark_all_in_if_broke r idx = elim (get_elem? r.players idx) [
  | none ↦ r
  | some p ↦
      if p.stack == 0
      then record r {
        players = modify r.players idx (λ q. record q { all_in = true });
        n_can_act = r.n_can_act - 1;
      }
      else r
]

-- The chips moved, whether the action is a full raise, and the round after it.
pub record Effect : Type 0 where
  pub moved : ℕ
  pub is_aggression : Bool
  pub round : BettingRound

unfoldable pub fold_effect : BettingRound → ℕ → Effect
fold_effect r idx = record {
  moved = 0;
  is_aggression = false;
  round = record r {
    players = modify r.players idx (λ p. record p { folded = true });
    n_can_act = r.n_can_act - 1;
  };
}

unfoldable pub call_effect : BettingRound → ℕ → PlayerState → Effect
unfolding mark_all_in_if_broke
call_effect r idx p =
    let actual = min (r.current_bet - p.contributed) p.stack in
    record {
      moved = actual;
      is_aggression = false;
      round = mark_all_in_if_broke (commit r idx actual) idx;
    }

-- A short all-in may lift the bet, and never lowers it.
abbrev pub lift_bet : BettingRound → ℕ → BettingRound
lift_bet r total = if ltb r.current_bet total then record r { current_bet = total } else r

-- The chips of a `Raise`, in the round `s` with its new bets.
abbrev pub pay_raise : BettingRound → ℕ → ℕ → Bool → Effect
pay_raise s idx to_commit full = record {
  moved = to_commit;
  is_aggression = full;
  round = mark_all_in_if_broke (commit s idx to_commit) idx;
}

unfoldable pub short_raise : BettingRound → ℕ → ℕ → ℕ → Effect
unfolding mark_all_in_if_broke
short_raise r idx raise_total to_commit = pay_raise (lift_bet r raise_total) idx to_commit false

unfoldable pub full_raise : BettingRound → ℕ → ℕ → ℕ → Effect
unfolding mark_all_in_if_broke
full_raise r idx raise_total to_commit =
    pay_raise
      (record r { last_raise_amount = raise_total - r.current_bet; current_bet = raise_total }) idx
      to_commit true

-- A `Raise` below the minimum is refused unless it is all-in; it does not reopen the betting.
unfoldable pub raise_effect : BettingRound → ℕ → PlayerState → ℕ → Result Effect
unfolding short_raise full_raise
raise_effect r idx p raise_total =
    let min_raise = saturating_add r.current_bet r.last_raise_amount in
    let to_commit = raise_total - p.contributed in
    guard (leb to_commit p.stack) invalid_action
    >> (if ltb raise_total min_raise
        then (guard (to_commit == p.stack && ltb 0 p.stack) below_min_raise
            >> ok (short_raise r idx raise_total to_commit))
        else ok (full_raise r idx raise_total to_commit))

unfoldable pub all_in_effect : BettingRound → ℕ → PlayerState → Effect
all_in_effect r idx p =
    let total_committed = add32 p.contributed p.stack in
    let raise_delta = total_committed - r.current_bet in
    let raises = ltb r.current_bet total_committed in
    let full = raises && leb r.last_raise_amount raise_delta in
    record {
      moved = p.stack;
      is_aggression = full;
      round = record r {
        current_bet = if raises then total_committed else r.current_bet;
        last_raise_amount = if full then raise_delta else r.last_raise_amount;
        players =
            modify r.players idx
              λ q. record q { contributed = add32 q.contributed p.stack; stack = 0; all_in = true };
        n_can_act = r.n_can_act - 1;
        pot_total = add32 r.pot_total p.stack;
      };
    }

-- `match action { ... }`
unfoldable pub effect : BettingRound → ℕ → PlayerState → PlayerAction → Result Effect
unfolding fold_effect call_effect raise_effect all_in_effect
effect r idx p fold = ok (fold_effect r idx)
effect r idx p check =
    guard (r.current_bet - p.contributed == 0) invalid_action
    >> ok (record { moved = 0; is_aggression = false; round = r })
effect r idx p call = ok (call_effect r idx p)
effect r idx p (raise raise_to) = raise_effect r idx p raise_to
effect r idx p all_in = ok (all_in_effect r idx p)
effect r idx p (blind kind amount) = err invalid_action

-- A full raise clears `has_acted` of the others who can act. `i` is the index of the list's head.
unfoldable pub reopen : ℕ → ℕ → List PlayerState → List PlayerState
reopen idx i [] = []
reopen idx i (p ∷ ps) =
    (if not (i == idx) && not p.folded && not p.all_in then record p { has_acted = false } else p)
    ∷ reopen idx (i + 1) ps

-- The actions still due after the action of player `idx`, and the flags that it reopens.
unfoldable pub respond : Effect → ℕ → BettingRound
unfolding reopen
respond e idx =
    let r = e.round in
    if e.is_aggression
    then record r {
      actions_remaining = elim (get_elem? r.players idx) [
        | none ↦ r.n_can_act
        | some p ↦ if p.all_in then r.n_can_act else r.n_can_act - 1
      ];
      players = reopen idx 0 r.players;
    }
    else record r { actions_remaining = r.actions_remaining - 1 }

unfoldable pub record_action : BettingRound → ℕ → BettingRound
record_action r idx = record r {
  players = modify r.players idx (λ p. record p { has_acted = true; acted_at_bet = r.current_bet });
}

-- What follows the match: responses due, the actor's marks, the next actor, the closing test.
unfoldable pub finish_action : Effect → ℕ → BettingRound
unfolding respond record_action
finish_action e idx = check_done (advance (record_action (respond e idx) idx))

-- The tests before the match.
unfoldable pub permitted : BettingRound → PlayerState → PlayerAction → Result (Unit {0})
unfolding is_aggressive_attempt is_raise_attempt
permitted r p action = do
  guard (not p.folded) already_folded
  guard (not p.all_in) invalid_action
  guard (not (is_aggressive_attempt r p action && not (player_can_raise r r.current)))
      invalid_action
  guard (not ((p.has_acted && not (action_reopened_for r p)) && is_raise_attempt r p action))
      invalid_action

unfoldable pub apply_action : BettingRound → ℕ → PlayerAction → Result (ℕ × BettingRound)
unfolding is_empty
apply_action r player_id action = do
  guard (not r.done) hand_finished
  guard (not (is_empty r.players)) hand_finished
  p ← player_at r r.current
  guard (p.player_id == player_id) not_your_turn
  permitted r p action
  e ← effect r r.current p action
  ok (e.moved, finish_action e r.current)

-- The player `p` at `idx` folds out of turn; the counters lose what they held of the player.
unfoldable pub withdraw : BettingRound → ℕ → PlayerState → BettingRound
withdraw r idx p =
    let waits = not p.has_acted || ltb p.contributed r.current_bet in
    record r {
      n_can_act = if p.all_in then r.n_can_act else r.n_can_act - 1;
      actions_remaining =
          if not p.all_in && waits then r.actions_remaining - 1 else r.actions_remaining;
      players = modify r.players idx (λ q. record q { folded = true; has_acted = true });
    }

-- The part of `forfeit_player` that writes.
unfoldable pub retire : BettingRound → ℕ → PlayerState → BettingRound
retire r idx p =
    let folded = withdraw r idx p in
    check_done (if idx == r.current then advance folded else folded)

-- `BettingRound::forfeit_player`
unfoldable pub forfeit_player : BettingRound → ℕ → Result (ℕ × BettingRound)
unfolding retire withdraw
forfeit_player r player_id = elim (position (λ p. p.player_id == player_id) r.players) [
  | none ↦ err not_in_hand
  | some idx ↦ do
    p ← player_at r idx
    guard (not p.folded) already_folded
    guard (not (leb (count is_live r.players) 1)) hand_finished
    ok (0, retire r idx p)
]

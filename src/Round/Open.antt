-- ===== src/Round/Open.antt =====
-- engine/src/round.rs: `BettingRound::new` and `new_preflop`.
use mathlib.Core.List.{foldl}
use bluffking.Prelude.{
  ℕ, ◌%◌, true, false, none, some, List, [], ◌∷◌, map, min, max, ltb, ◌==◌, if◌then◌else◌, length,
  get_elem?, modify, position, count, add32, sub32,
}
use bluffking.Round.State.{PlayerState, BettingRound, new_state, can_act, empty}
use bluffking.Round.Turn.{seek_active, check_done}

-- A player with nothing left is all-in.
abbrev pub all_in_if_broke : PlayerState → PlayerState
all_in_if_broke p = if p.stack == 0 then record p { all_in = true } else p

-- The round before the first actor is sought.
abbrev pub unopened : List PlayerState → ℕ → ℕ → ℕ → ℕ → BettingRound
unopened states first_actor current_bet big_blind pot_total = record {
  players = states;
  current = first_actor % length states;
  current_bet = current_bet;
  last_raise_amount = big_blind;
  pot_total = pot_total;
  done = false;
  actions_remaining = count can_act states;
  n_can_act = count can_act states;
}

-- The round that a list of states opens; `n` players, at least one.
unfoldable pub opened : List PlayerState → ℕ → ℕ → ℕ → ℕ → BettingRound
opened states first_actor current_bet big_blind pot_total =
    check_done (seek_active (unopened states first_actor current_bet big_blind pot_total))

-- `PlayerState::new` for each player.
abbrev pub seated : List (ℕ × ℕ) → List PlayerState
seated = map (λ (id, stack). new_state id stack)

-- `BettingRound::new`
unfoldable pub new : List (ℕ × ℕ) → ℕ → ℕ → ℕ → BettingRound
unfolding opened new_state empty
new [] first_actor current_bet big_blind = empty current_bet big_blind
new (p ∷ ps) first_actor current_bet big_blind =
    opened (map all_in_if_broke (seated (p ∷ ps))) first_actor current_bet big_blind 0

-- The variables of the loop over the blinds.
pub record Posting : Type 0 where
  pub players : List PlayerState
  pub current_bet : ℕ
  pub total_posted : ℕ

-- The state of a player who posts, before the all-in flag.
abbrev pub posted : PlayerState → ℕ → PlayerState
posted p actual = record p {
  stack = sub32 p.stack actual;
  contributed = add32 p.contributed actual;
}

-- The loop's body at the player `p` found at `idx`.
unfoldable pub post_at : Posting → ℕ → PlayerState → ℕ → Posting
post_at s idx p amount =
    let actual = min amount p.stack in
    let p' = all_in_if_broke (posted p actual) in
    record {
      players = modify s.players idx (λ _. p');
      current_bet = if ltb s.current_bet p'.contributed then p'.contributed else s.current_bet;
      total_posted = add32 s.total_posted actual;
    }

-- One turn of the loop: an unknown poster is skipped.
unfoldable pub post_blind : Posting → ℕ × ℕ → Posting
unfolding post_at
post_blind s (blind_id, amount) = elim (position (λ p. p.player_id == blind_id) s.players) [
  | none ↦ s
  | some idx ↦ elim (get_elem? s.players idx) [ none ↦ s | some p ↦ post_at s idx p amount ]
]

unfoldable pub post_blinds : List PlayerState → List (ℕ × ℕ) → Posting
unfolding post_blind
post_blinds states blinds =
    foldl post_blind (record { players = states; current_bet = 0; total_posted = 0 }) blinds

-- `BettingRound::new_preflop`; the stacks are those before the blinds.
unfoldable pub new_preflop : List (ℕ × ℕ) → ℕ → List (ℕ × ℕ) → ℕ → BettingRound
unfolding post_blinds opened new_state empty
new_preflop [] first_actor blinds big_blind = empty 0 big_blind
new_preflop (p ∷ ps) first_actor blinds big_blind =
    let s = post_blinds (seated (p ∷ ps)) blinds in
    opened (map all_in_if_broke s.players) first_actor (max s.current_bet big_blind) big_blind
      s.total_posted

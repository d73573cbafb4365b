-- ===== src/Round/State.antt =====
-- engine/src/round.rs: the state of a player and of a street of betting, and the queries on it.
use bluffking.Prelude.{
  ℕ, ◌+◌, ◌-◌, Bool, true, false, not, ◌&&◌, ◌||◌, Option, none, some, List, [], ◌∷◌, ltb, leb,
  ◌==◌, if◌then◌else◌, get_elem?, find, saturating_add,
}
use mathlib.Core.Option

pub record PlayerState : Type 0 where
  pub player_id : ℕ
  pub stack : ℕ
  pub contributed : ℕ
  pub folded : Bool
  pub all_in : Bool
  pub has_acted : Bool
  pub acted_at_bet : ℕ

pub record BettingRound : Type 0 where
  pub players : List PlayerState
  pub current : ℕ
  pub current_bet : ℕ
  pub last_raise_amount : ℕ
  pub pot_total : ℕ
  pub done : Bool
  pub actions_remaining : ℕ
  pub n_can_act : ℕ

-- `PlayerState::new`
unfoldable pub new_state : ℕ → ℕ → PlayerState
new_state player_id stack = record {
  player_id = player_id;
  stack = stack;
  contributed = 0;
  folded = false;
  all_in = false;
  has_acted = false;
  acted_at_bet = 0;
}

-- `!p.folded && !p.all_in`
abbrev pub can_act : PlayerState → Bool
can_act p = not p.folded && not p.all_in

-- `!p.folded`
abbrev pub is_live : PlayerState → Bool
is_live p = not p.folded

-- `BettingRound::empty`
unfoldable pub empty : ℕ → ℕ → BettingRound
empty current_bet big_blind = record {
  players = [];
  current = 0;
  current_bet = current_bet;
  last_raise_amount = big_blind;
  pot_total = 0;
  done = true;
  actions_remaining = 0;
  n_can_act = 0;
}

unfoldable pub is_empty : List PlayerState → Bool
is_empty [] = true
is_empty (p ∷ ps) = false

-- `current_player`: the index of a round that is not done is in range, which `IsValid` shows.
unfoldable pub current_player : BettingRound → Option ℕ
unfolding is_empty
current_player r =
    if r.done || is_empty r.players
    then none
    else Option.map (λ (p : PlayerState). p.player_id) (get_elem? r.players r.current)

unfoldable pub min_raise_to : BettingRound → ℕ
min_raise_to r = saturating_add r.current_bet r.last_raise_amount

-- Whether `p` at some other index than `idx` satisfies `q`, for `iter().enumerate().any(...)`.
unfoldable pub any_other : ℕ → (PlayerState → Bool) → ℕ → List PlayerState → Bool
any_other idx q i [] = false
any_other idx q i (p ∷ ps) = (not (i == idx) && q p) || any_other idx q (i + 1) ps

unfoldable pub action_reopened_for : BettingRound → PlayerState → Bool
action_reopened_for r p =
    ltb 0 r.last_raise_amount && leb r.last_raise_amount (r.current_bet - p.acted_at_bet)

unfoldable pub player_can_raise : BettingRound → ℕ → Bool
unfolding action_reopened_for any_other
player_can_raise r idx = elim (get_elem? r.players idx) [
  | none ↦ false
  | some p ↦
      if p.folded || p.all_in
      then false
      else if leb (saturating_add p.contributed p.stack) r.current_bet
      then false
      else if not (any_other idx can_act 0 r.players)
      then false
      else not p.has_acted || action_reopened_for r p
]

unfoldable pub current_player_can_raise : BettingRound → Bool
current_player_can_raise r =
    if r.done || is_empty r.players then false else player_can_raise r r.current

-- The contribution of the first state with the id, and 0 for an unknown player.
unfoldable pub player_contributed : BettingRound → ℕ → ℕ
player_contributed r player_id = elim (find (λ p. p.player_id == player_id) r.players) [
  | none ↦ 0
  | some p ↦ p.contributed
]

unfoldable pub to_call : BettingRound → ℕ → ℕ
unfolding player_contributed
to_call r player_id = r.current_bet - player_contributed r player_id

unfoldable pub player_folded : BettingRound → ℕ → Bool
player_folded r player_id = elim (find (λ p. p.player_id == player_id) r.players) [
  | none ↦ false
  | some p ↦ p.folded
]

unfoldable pub player_all_in : BettingRound → ℕ → Bool
player_all_in r player_id = elim (find (λ p. p.player_id == player_id) r.players) [
  | none ↦ false
  | some p ↦ p.all_in
]

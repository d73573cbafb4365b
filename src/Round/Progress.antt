-- ===== src/Round/Progress.antt =====
-- engine/src/round.rs: panics, and the actions that the actor of a valid street has.
use bluffking.Prelude.{
  ℕ, ◌-◌, ◌≤◌, ◌≡◌, refl, ◌≢◌, true, false, some, Option-cases, List, [], ◌∷◌, arith, ◌==◌, ==_self,
  inl, inr, get_elem?, position, position-get,
}
use bluffking.Action.{PlayerAction, fold, check, call, raise, ok, panicked, ◌>>=◌}
use bluffking.Round.State.{PlayerState, BettingRound, can_act, is_empty, current_player}
use bluffking.Round.Action.{
  Effect, permitted, effect, apply_action, is_aggressive_attempt, is_raise_attempt, forfeit_player,
  finish_action,
}
use bluffking.Round.Settle.{HasTurn}
use bluffking.Round.Valid.{IsValid}

-- An action that `apply_action` accepts from the player.
abbrev pub Accepts : BettingRound → ℕ → PlayerAction → Type 0
Accepts r player_id a =
    (moved : ℕ) × (s : BettingRound) × (apply_action r player_id a ≡ ok (moved, s))

-- The actor of an open street.
pub actor_of :
    (r : BettingRound)
    → HasTurn r
    → r.done ≡ false
    → (p : PlayerState) × (get_elem? r.players r.current ≡ some p) × (can_act p ≡ true)
actor_of r turn open_street = elim (Option-cases (get_elem? r.players r.current)) [
  | inl e ↦ ground arith
  | inr (p, e) ↦ (p, e, ground arith)
]

is_empty-get :
    (ps : List PlayerState) (i : ℕ) {p : PlayerState}
    → get_elem? ps i ≡ some p
    → is_empty ps ≡ false
unfolding is_empty
is_empty-get [] i e = cc
is_empty-get (q ∷ ps) i e = refl

-- For the actor, `apply_action` comes down to the legality tests and the effect.
pub apply_action-actor :
    (r : BettingRound) (p : PlayerState) (a : PlayerAction)
    → r.done ≡ false
    → get_elem? r.players r.current ≡ some p
    → apply_action r p.player_id a ≡ (
        permitted r p a >>= λ _.
        effect r r.current p a >>= λ e. ok (e.moved, finish_action e r.current))
unfolding apply_action
apply_action-actor r p a open_street at_p =
    ground (arith, is_empty-get r.players r.current at_p, ==_self p.player_id)

permitted-passive :
    (r : BettingRound) (p : PlayerState) (a : PlayerAction)
    → can_act p ≡ true
    → is_aggressive_attempt r p a ≡ false
    → is_raise_attempt r p a ≡ false
    → permitted r p a ≡ ok tt
unfolding permitted
permitted-passive r p a able calm quiet = ground arith

-- Folding, calling and, with nothing to call, checking.
data IsPassive (r : BettingRound) (p : PlayerState) : PlayerAction → Type 0 where
  folds : IsPassive r p fold
  calls : IsPassive r p call
  checks : r.current_bet - p.contributed ≡ 0 → IsPassive r p check

IsPassive-allowed :
    (r : BettingRound) (p : PlayerState) {a : PlayerAction}
    → can_act p ≡ true
    → IsPassive r p a
    → permitted r p a ≡ ok tt
unfolding is_aggressive_attempt is_raise_attempt
IsPassive-allowed r p able folds = permitted-passive r p fold able refl refl
IsPassive-allowed r p able calls = permitted-passive r p call able refl refl
IsPassive-allowed r p able (checks e) = permitted-passive r p check able refl refl

IsPassive-effect :
    (r : BettingRound) (p : PlayerState) {a : PlayerAction}
    → IsPassive r p a
    → (e : Effect) × (effect r r.current p a ≡ ok e)
unfolding effect
IsPassive-effect r p folds = (_, refl)
IsPassive-effect r p calls = (_, refl)
IsPassive-effect r p (checks e) = (record { moved = 0; is_aggression = false; round = r }, rw e)

IsPassive-Accepts :
    (r : BettingRound) (p : PlayerState) (a : PlayerAction)
    → r.done ≡ false
    → get_elem? r.players r.current ≡ some p
    → can_act p ≡ true
    → IsPassive r p a
    → Accepts r p.player_id a
IsPassive-Accepts r p a open_street at_p able passive =
    let (e, effect_ok) = IsPassive-effect r p passive in
    (
      e.moved,
      finish_action e r.current,
      rw (apply_action-actor r p a open_street at_p, IsPassive-allowed r p able passive, effect_ok),
    )

-- While a valid street is open it has an actor, which `current_player` names, and the actor may
-- fold, call, and check when nothing is to be called: the street never waits for somebody who has
-- no legal action.
pub actor-Accepts :
    (r : BettingRound)
    → IsValid r
    → r.done ≡ false
    → (p : PlayerState) × (current_player r ≡ some p.player_id)
      × Accepts r p.player_id fold
      × Accepts r p.player_id call
      × (r.current_bet ≤ p.contributed → Accepts r p.player_id check)
unfolding current_player
actor-Accepts r v open_street =
    let (p, at_p, able) = actor_of r v.turn open_street in
    (
      p,
      ground (arith, is_empty-get r.players r.current at_p),
      IsPassive-Accepts r p fold open_street at_p able folds,
      IsPassive-Accepts r p call open_street at_p able calls,
      λ h. IsPassive-Accepts r p check open_street at_p able (checks (omega arith)),
    )

permitted-ne-panicked :
    (r : BettingRound) (p : PlayerState) (a : PlayerAction) → permitted r p a ≢ panicked
unfolding permitted
permitted-ne-panicked r p a = ground arith

effect-ne-panicked :
    (r : BettingRound) (idx : ℕ) (p : PlayerState) (a : PlayerAction) → effect r idx p a ≢ panicked
unfolding effect
effect-ne-panicked r idx p fold = cc
effect-ne-panicked r idx p (raise amount) = ground arith
effect-ne-panicked r idx p other = ground arith

forfeit_player-ne-panicked :
    (r : BettingRound) (player_id : ℕ) → forfeit_player r player_id ≢ panicked
unfolding forfeit_player
forfeit_player-ne-panicked r player_id h =
    elim (Option-cases (position (λ p. p.player_id == player_id) r.players)) [
      | inl e ↦ ground arith
      | inr (idx, e) ↦ ground (arith, position-get (λ p. p.player_id == player_id) r.players idx e)
    ]

-- No action and no forfeit panics in a valid street, whoever sends it.
pub operations-ne-panicked :
    (r : BettingRound) (player_id : ℕ) (a : PlayerAction)
    → IsValid r
    → (apply_action r player_id a ≢ panicked) × (forfeit_player r player_id ≢ panicked)
unfolding apply_action
operations-ne-panicked r player_id a v = (
  λ h. elim (Option-cases (get_elem? r.players r.current)) [
    | inl e ↦ ground (arith, v.turn)
    | inr (p, e) ↦ ground (arith, permitted-ne-panicked r p a, effect-ne-panicked r r.current p a)
  ],
  forfeit_player-ne-panicked r player_id,
)

-- ===== src/Round/Valid.antt =====
-- engine/src/round.rs: a valid street, and `apply_action` on it.
use bluffking.Prelude.{
  ℕ, ◌+◌, ◌≡◌, sym, ap, ◌∙◌, true, false, not, some, Option-cases, arith, ◌==◌, ==_iff, get_elem?,
}
use bluffking.Action.{PlayerAction, ok, >>-eq-ok, >>=-eq-ok, ok-injective}
use bluffking.Round.State.{PlayerState, BettingRound, can_act, is_empty}
use bluffking.Round.Action.{Effect, permitted, effect, finish_action, player_at, apply_action}
use bluffking.Round.Counted.{stakes}
use bluffking.Round.Effects.{IsBalanced, Keeps, effect-Keeps}
use bluffking.Round.Frame.{IsCounted-SameChips, stakes-SameChips}
use bluffking.Round.Settle.{Settles, HasTurn, finish_action-Settles, finish_action-HasTurn}

pub record IsValid (r : BettingRound) : Type 0 where
  pub balanced : IsBalanced r
  pub turn : HasTurn r

-- What an accepted operation guarantees: `moved` chips went from a stack to the pot.
pub record Conserves (r : BettingRound) (moved : ℕ) (s : BettingRound) : Type 0 where
  pub valid : IsValid s
  pub pot : s.pot_total ≡ r.pot_total + moved
  pub same_stakes : stakes s.players ≡ stakes r.players

-- An accepted action, taken apart: the actor, and the effect that the rest of the call finishes.
pub record Accepted (r : BettingRound) (player_id : ℕ) (a : PlayerAction) (moved : ℕ)
    (s : BettingRound) : Type 0 where
  pub actor : PlayerState
  pub change : Effect
  pub open_street : r.done ≡ false
  pub at_current : get_elem? r.players r.current ≡ some actor
  pub own_turn : actor.player_id ≡ player_id
  pub allowed : permitted r actor a ≡ ok tt
  pub effect_ok : effect r r.current actor a ≡ ok change
  pub moved_eq : moved ≡ change.moved
  pub finished : s ≡ finish_action change r.current

pub apply_action-Accepted :
    (r : BettingRound) (player_id : ℕ) (a : PlayerAction) (moved : ℕ) (s : BettingRound)
    → apply_action r player_id a ≡ ok (moved, s)
    → Accepted r player_id a moved s
unfolding apply_action
apply_action-Accepted r player_id a moved s h =
    let (open_street, h₁) = >>-eq-ok (not r.done) _ _ h in
    let (_, h₂) = >>-eq-ok (not (is_empty r.players)) _ _ h₁ in
    let (p, at_p, h₃) = >>=-eq-ok (player_at r r.current) _ h₂ in
    let (own, h₄) = >>-eq-ok (p.player_id == player_id) _ _ h₃ in
    let (unit, allowed, h₅) = >>=-eq-ok (permitted r p a) _ h₄ in
    let (e, effect_ok, h₆) = >>=-eq-ok (effect r r.current p a) _ h₅ in
    record {
      actor = p;
      change = e;
      open_street = ground arith;
      at_current = ground (arith, Option-cases (get_elem? r.players r.current));
      own_turn = (==_iff _ _).0 own;
      allowed = allowed;
      effect_ok = effect_ok;
      moved_eq = sym (ap (λ x. x.0) (ok-injective h₆));
      finished = sym (ap (λ x. x.1) (ok-injective h₆));
    }

pub actor-can_act :
    (r : BettingRound) (p : PlayerState)
    → HasTurn r
    → r.done ≡ false
    → get_elem? r.players r.current ≡ some p
    → can_act p ≡ true
actor-can_act r p turn open_street at_p = ground arith

Settles-Conserves :
    (r : BettingRound) (e : Effect) (s : BettingRound)
    → Keeps r e
    → Settles e.round s
    → HasTurn s
    → Conserves r e.moved s
Settles-Conserves r e s k settles turn = record {
  valid = record {
    balanced =
        rw (settles.same_able, settles.same_pot)
          (IsCounted-SameChips e.round.players s.players settles.same_chips k.counted);
    turn = turn;
  };
  pot = settles.same_pot ∙ k.moved_in;
  same_stakes = stakes-SameChips e.round.players s.players settles.same_chips ∙ k.same_stakes;
}

-- An accepted action keeps the street valid: the counter of players who can act is exact, the
-- all-in flags are those of the empty stacks, no sum overflows, and the next actor can act. The
-- chips it reports as moved are what the pot grows by, and every player's chips, those behind and
-- those in the pot together, stay what they were.
pub apply_action-Conserves :
    (r : BettingRound) (player_id : ℕ) (a : PlayerAction) (moved : ℕ) (s : BettingRound)
    → IsValid r
    → apply_action r player_id a ≡ ok (moved, s)
    → Conserves r moved s
apply_action-Conserves r player_id a moved s v h =
    let acc = apply_action-Accepted r player_id a moved s h in
    let able = actor-can_act r acc.actor v.turn acc.open_street acc.at_current in
    let k =
      effect-Keeps r r.current acc.actor acc.at_current able v.balanced a acc.change
        acc.effect_ok in
    rw (acc.moved_eq, acc.finished)
      (Settles-Conserves r acc.change _ k (finish_action-Settles acc.change r.current)
        (finish_action-HasTurn acc.change r.current))

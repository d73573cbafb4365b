-- ===== src/Round/Legal.antt =====
-- engine/src/round.rs: the betting rules in `apply_action`.
use bluffking.Prelude.{
  ℕ, zero, suc, ◌+◌, ◌-◌, ◌%◌, ◌≤◌, ◌<◌, ◌≡◌, refl, sym, ap, ◌∙◌, ◌≢◌, Bool, true, false, not, ◌&&◌,
  some, List, [], ◌∷◌, arith, ◌==◌, if◌then◌else◌, Bool-cases, inl, inr, get_elem?, ltb, ◌⊎◌,
  add32-eq, u32_mod, length, all,
}
use mathlib.Core.Option.{some-injective}
use bluffking.Action.{PlayerAction, fold, check, call, raise, all_in, blind, ok, ok-injective}
use bluffking.Round.State.{
  PlayerState, BettingRound, can_act, player_can_raise, min_raise_to, any_other,
}
use bluffking.Round.Turn.{advance_loop, advance, check_done}
use bluffking.Round.Action.{
  Effect, permitted, effect, apply_action, is_aggressive_attempt, finish_action, respond,
  record_action, mark_all_in_if_broke, commit, short_raise, full_raise, lift_bet, call_effect,
}
use bluffking.Round.Counted.{stake, stake-bound}
use bluffking.Round.Effects.{raise_cases}
use bluffking.Round.Valid.{IsValid, apply_action-Accepted}

advance_loop-bet : (k n : ℕ) (r : BettingRound) → (advance_loop k n r).current_bet ≡ r.current_bet
unfolding advance_loop
advance_loop-bet zero n r = refl
advance_loop-bet (suc k) n r =
    ground (arith, advance_loop-bet k n (record r { current = (r.current + 1) % n }))

advance-bet : (r : BettingRound) → (advance r).current_bet ≡ r.current_bet
unfolding advance
advance-bet r = ground (arith, advance_loop-bet (length r.players) (length r.players) r)

-- Closing a street never lifts the bet; it may lower a bet that nobody made.
check_done-bet-le : (r : BettingRound) → (check_done r).current_bet ≤ r.current_bet
unfolding check_done
check_done-bet-le r = ground arith

respond-bet : (e : Effect) (idx : ℕ) → (respond e idx).current_bet ≡ e.round.current_bet
unfolding respond
respond-bet e idx = ground arith

record_action-bet : (r : BettingRound) (idx : ℕ) → (record_action r idx).current_bet ≡ r.current_bet
unfolding record_action
record_action-bet r idx = refl

finish_action-bet-le :
    (e : Effect) (idx : ℕ) → (finish_action e idx).current_bet ≤ e.round.current_bet
unfolding finish_action
finish_action-bet-le e idx = omega (
  arith,
  check_done-bet-le (advance (record_action (respond e idx) idx)),
  advance-bet (record_action (respond e idx) idx),
  record_action-bet (respond e idx) idx,
  respond-bet e idx,
)

mark_all_in_if_broke-bet :
    (r : BettingRound) (idx : ℕ) → (mark_all_in_if_broke r idx).current_bet ≡ r.current_bet
unfolding mark_all_in_if_broke
mark_all_in_if_broke-bet r idx = ground arith

short_raise-bet :
    (r : BettingRound) (idx total amount : ℕ)
    → (short_raise r idx total amount).round.current_bet
      ≡ (if ltb r.current_bet total then total else r.current_bet)
unfolding short_raise
short_raise-bet r idx total amount =
    mark_all_in_if_broke-bet (commit (lift_bet r total) idx amount) idx ∙ ground arith

full_raise-bet :
    (r : BettingRound) (idx total amount : ℕ)
    → (full_raise r idx total amount).round.current_bet ≡ total
unfolding full_raise
full_raise-bet r idx total amount = mark_all_in_if_broke-bet _ idx

call-bet :
    (r : BettingRound) (idx : ℕ) (p : PlayerState)
    → (call_effect r idx p).round.current_bet ≡ r.current_bet
unfolding call_effect
call-bet r idx p = mark_all_in_if_broke-bet _ idx

-- An effect that lifts the bet comes from an aggressive attempt.
raises-is_aggressive_attempt :
    (r : BettingRound) (idx : ℕ) (p : PlayerState) (a : PlayerAction) (e : Effect)
    → stake p < u32_mod
    → effect r idx p a ≡ ok e
    → r.current_bet < e.round.current_bet
    → is_aggressive_attempt r p a ≡ true
unfolding is_aggressive_attempt effect
raises-is_aggressive_attempt r idx p fold e b h lt = ground arith
raises-is_aggressive_attempt r idx p check e b h lt = ground arith
raises-is_aggressive_attempt r idx p call e b h lt =
    absurd
      (omega (arith, call-bet r idx p, ap (λ (x : Effect). x.round.current_bet) (ok-injective h)))
raises-is_aggressive_attempt r idx p (raise amount) e b h lt =
    elim (raise_cases r idx p amount e h).1 [
      | inl (_, _, _, short) ↦ ground (
        arith,
        short_raise-bet r idx amount (amount - p.contributed),
        ap (λ (x : Effect). x.round.current_bet) short,
      )
      | inr (_, full) ↦ ground (
        arith,
        full_raise-bet r idx amount (amount - p.contributed),
        ap (λ (x : Effect). x.round.current_bet) full,
      )
    ]
raises-is_aggressive_attempt r idx p all_in e b h lt =
    ground (arith, add32-eq p.contributed p.stack)
raises-is_aggressive_attempt r idx p (blind kind amount) e b h lt = cc

permitted-can_raise :
    (r : BettingRound) (p : PlayerState) (a : PlayerAction)
    → permitted r p a ≡ ok tt
    → is_aggressive_attempt r p a ≡ true
    → player_can_raise r r.current ≡ true
unfolding permitted
permitted-can_raise r p a h aggressive = ground arith

-- What gives the actor the right to raise: chips beyond a call, somebody else who can respond, and
-- a betting that is open: no action yet, or a full raise since, in one wager or in several.
pub record MayRaise (r : BettingRound) : Type 0 where
  pub actor : PlayerState
  pub at_current : get_elem? r.players r.current ≡ some actor
  pub chips : r.current_bet < stake actor
  pub opponent : PlayerState
  pub opponent_idx : ℕ
  pub elsewhere : opponent_idx ≢ r.current
  pub at_opponent : get_elem? r.players opponent_idx ≡ some opponent
  pub responds : can_act opponent ≡ true
  pub betting_open :
      (actor.has_acted ≡ false)
      ⊎ (0 < r.last_raise_amount) × (actor.acted_at_bet + r.last_raise_amount ≤ r.current_bet)

any_other-get :
    (idx i : ℕ) (q : PlayerState → Bool) (ps : List PlayerState)
    → any_other idx q i ps ≡ true
    → (k : ℕ) × (p : PlayerState) × (get_elem? ps k ≡ some p) × (i + k ≢ idx) × (q p ≡ true)
unfolding any_other
any_other-get idx i q [] h = cc
any_other-get idx i q (p ∷ ps) h = elim (Bool-cases (not (i == idx) && q p)) [
  | inl here ↦ (0, p, refl, (λ e. ground arith), ground arith)
  | inr later ↦
      let (k, p', at_k, other, qp) = any_other-get idx (i + 1) q ps (ground arith) in
      (suc k, p', at_k, (λ e. other (omega arith)), qp)
]

player_can_raise-open :
    (r : BettingRound) (p : PlayerState)
    → get_elem? r.players r.current ≡ some p
    → player_can_raise r r.current ≡ true
    → (p.has_acted ≡ false)
      ⊎ (0 < r.last_raise_amount) × (p.acted_at_bet + r.last_raise_amount ≤ r.current_bet)
unfolding player_can_raise
player_can_raise-open r p at_p h = elim (Bool-cases p.has_acted) [
  | inl acted ↦ inr (ground arith, ground arith)
  | inr fresh ↦ inl fresh
]

player_can_raise-MayRaise :
    (r : BettingRound) (p : PlayerState)
    → get_elem? r.players r.current ≡ some p
    → stake p < u32_mod
    → player_can_raise r r.current ≡ true
    → MayRaise r
unfolding player_can_raise
player_can_raise-MayRaise r p at_p b h =
    let (k, q, at_k, other, able) = any_other-get r.current 0 can_act r.players (ground arith) in
    record {
      actor = p;
      at_current = at_p;
      chips = ground arith;
      opponent = q;
      opponent_idx = k;
      elsewhere = λ e. other (omega arith);
      at_opponent = at_k;
      responds = able;
      betting_open = player_can_raise-open r p at_p h;
    }

-- In a valid street only a player with the right to raise lifts the bet: if the bet after an accepted
-- action is higher than before, then the actor had chips beyond a call, another player could still respond,
-- and the actor had not acted since the last full raise or the bet had grown by a full raise since.
pub raised-MayRaise :
    (r : BettingRound) (player_id : ℕ) (a : PlayerAction) (moved : ℕ) (s : BettingRound)
    → IsValid r
    → apply_action r player_id a ≡ ok (moved, s)
    → r.current_bet < s.current_bet
    → MayRaise r
raised-MayRaise r player_id a moved s v h lifted =
    let acc = apply_action-Accepted r player_id a moved s h in
    let bound =
      stake-bound r.players r.n_can_act r.pot_total r.current acc.actor acc.at_current v.balanced in
    let higher : r.current_bet < acc.change.round.current_bet = omega (
      arith,
      finish_action-bet-le acc.change r.current,
      ap (λ (x : BettingRound). x.current_bet) acc.finished,
    ) in
    player_can_raise-MayRaise r acc.actor acc.at_current bound (
      permitted-can_raise r acc.actor a acc.allowed (
        raises-is_aggressive_attempt r r.current acc.actor a acc.change bound acc.effect_ok higher))

-- A `Raise` that a valid street accepts is within the player's chips, and is at least `min_raise_to` or takes
-- the whole stack.
pub raise-min_raise_to :
    (r : BettingRound) (player_id amount moved : ℕ) (p : PlayerState) (s : BettingRound)
    → IsValid r
    → get_elem? r.players r.current ≡ some p
    → apply_action r player_id (raise amount) ≡ ok (moved, s)
    → (amount ≤ stake p) × ((min_raise_to r ≤ amount) ⊎ (amount ≡ stake p) × (moved ≡ p.stack))
unfolding min_raise_to effect
raise-min_raise_to r player_id amount moved p s v at_p h =
    let acc = apply_action-Accepted r player_id (raise amount) moved s h in
    let same : acc.actor ≡ p = some-injective _ _ (sym acc.at_current ∙ at_p) in
    let (fits, which) = raise_cases r r.current acc.actor amount acc.change acc.effect_ok in
    let stack : acc.actor.stack ≡ p.stack = ap (λ q. q.stack) same in
    let contributed : acc.actor.contributed ≡ p.contributed = ap (λ q. q.contributed) same in
    (
      omega arith,
      elim which [
        | inl (_, all, some_chips, short) ↦
            inr (omega arith, acc.moved_eq ∙ ap (λ (x : Effect). x.moved) short ∙ all ∙ stack)
        | inr (full, _) ↦ inl full
      ],
    )

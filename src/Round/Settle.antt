-- ===== src/Round/Settle.antt =====
-- engine/src/round.rs: the steps that follow an action, which are the marks, the next actor and the
-- closing test.
use bluffking.Prelude.{
  ℕ, zero, suc, ◌+◌, ◌%◌, ◌≡◌, refl, true, ◌||◌, arith, Bool-cases, inl, inr, length, ◌∙◌,
}
use bluffking.Round.State.{BettingRound}
use bluffking.Round.Turn.{can_act_at, advance_loop, advance, close_if_settled, check_done}
use bluffking.Round.Action.{Effect, respond, record_action, finish_action}
use bluffking.Round.Frame.{
  SameChips, SameChips-refl, SameChips-trans, reopen-SameChips, modify-SameChips,
}

-- From `r` to `s` no chip moves and nobody folds.
pub record Settles (r s : BettingRound) : Type 0 where
  pub same_chips : SameChips r.players s.players
  pub same_pot : s.pot_total ≡ r.pot_total
  pub same_able : s.n_can_act ≡ r.n_can_act

pub Settles-trans : (r s t : BettingRound) → Settles r s → Settles s t → Settles r t
Settles-trans r s t h k = record {
  same_chips = SameChips-trans r.players s.players t.players h.same_chips k.same_chips;
  same_pot = k.same_pot ∙ h.same_pot;
  same_able = k.same_able ∙ h.same_able;
}

-- Somebody can act, or the street is closed.
abbrev pub HasTurn : BettingRound → Type 0
HasTurn r = (r.done || can_act_at r.players r.current) ≡ true

-- `s` is `r` but for the turn, the bet and the closing.
pub record SameTable (r s : BettingRound) : Type 0 where
  pub same_players : s.players ≡ r.players
  pub same_pot : s.pot_total ≡ r.pot_total
  pub same_able : s.n_can_act ≡ r.n_can_act

pub SameTable-trans : (r s t : BettingRound) → SameTable r s → SameTable s t → SameTable r t
SameTable-trans r s t h k = record {
  same_players = k.same_players ∙ h.same_players;
  same_pot = k.same_pot ∙ h.same_pot;
  same_able = k.same_able ∙ h.same_able;
}

SameTable-Settles : (r s : BettingRound) → SameTable r s → Settles r s
SameTable-Settles r s h = record {
  same_chips = rw (h.same_players) (SameChips-refl r.players);
  same_pot = h.same_pot;
  same_able = h.same_able;
}

respond-Settles : (e : Effect) (idx : ℕ) → Settles e.round (respond e idx)
unfolding respond
respond-Settles e idx = elim (Bool-cases e.is_aggression) [
  | inl full ↦ rw full (record {
    same_chips = reopen-SameChips idx 0 e.round.players;
    same_pot = refl;
    same_able = refl;
  })
  | inr small ↦
      rw small
        (record { same_chips = SameChips-refl e.round.players; same_pot = refl; same_able = refl })
]

record_action-Settles : (r : BettingRound) (idx : ℕ) → Settles r (record_action r idx)
unfolding record_action
record_action-Settles r idx = record {
  same_chips = modify-SameChips r.players idx _ (λ p. ground arith);
  same_pot = refl;
  same_able = refl;
}

advance_loop-SameTable : (k n : ℕ) (r : BettingRound) → SameTable r (advance_loop k n r)
unfolding advance_loop
advance_loop-SameTable zero n r = record { same_players = refl; same_pot = refl; same_able = refl }
advance_loop-SameTable (suc k) n r =
    ground (arith, advance_loop-SameTable k n (record r { current = (r.current + 1) % n }))

pub advance-SameTable : (r : BettingRound) → SameTable r (advance r)
unfolding advance
advance-SameTable r = ground (arith, advance_loop-SameTable (length r.players) (length r.players) r)

-- The actor that `advance` finds can act; with none the street is done.
advance_loop-HasTurn : (k n : ℕ) (r : BettingRound) → HasTurn (advance_loop k n r)
unfolding advance_loop
advance_loop-HasTurn zero n r = refl
advance_loop-HasTurn (suc k) n r =
    ground (arith, advance_loop-HasTurn k n (record r { current = (r.current + 1) % n }))

pub advance-HasTurn : (r : BettingRound) → HasTurn (advance r)
unfolding advance
advance-HasTurn r = ground (arith, advance_loop-HasTurn (length r.players) (length r.players) r)

close_if_settled-SameTable : (r : BettingRound) → SameTable r (close_if_settled r)
unfolding close_if_settled
close_if_settled-SameTable r = ground arith

pub check_done-SameTable : (r : BettingRound) → SameTable r (check_done r)
unfolding check_done
check_done-SameTable r = ground arith

pub check_done-HasTurn : (r : BettingRound) → HasTurn r → HasTurn (check_done r)
unfolding check_done
check_done-HasTurn r h = ground arith

pub check_done-Settles : (r : BettingRound) → Settles r (check_done r)
check_done-Settles r = SameTable-Settles r (check_done r) (check_done-SameTable r)

pub advance-Settles : (r : BettingRound) → Settles r (advance r)
advance-Settles r = SameTable-Settles r (advance r) (advance-SameTable r)

pub finish_action-Settles : (e : Effect) (idx : ℕ) → Settles e.round (finish_action e idx)
unfolding finish_action
finish_action-Settles e idx = Settles-trans e.round _ _ (respond-Settles e idx) (
    Settles-trans (respond e idx) _ _ (record_action-Settles (respond e idx) idx) (
      Settles-trans (record_action (respond e idx) idx) _ _ (advance-Settles _)
        (check_done-Settles _)))

pub finish_action-HasTurn : (e : Effect) (idx : ℕ) → HasTurn (finish_action e idx)
unfolding finish_action
finish_action-HasTurn e idx = check_done-HasTurn _ (advance-HasTurn _)

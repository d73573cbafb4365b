-- ===== src/Round/Forfeit.antt =====
-- engine/src/round.rs: `forfeit_player` and the validity of a street.
use bluffking.Prelude.{
  ℕ, ◌≡◌, refl, sym, ap, ◌∙◌, ◌≢◌, true, false, not, some, Option-cases, arith, ◌==◌, leb,
  Bool-cases, inl, inr, get_elem?, count, position, All-get, map-modify, count-pos_of_get,
  get_elem?-modify_ne,
}
use bluffking.Action.{ok, >>-eq-ok, >>=-eq-ok, ok-injective}
use bluffking.Round.State.{PlayerState, BettingRound, can_act, is_live}
use bluffking.Round.Action.{player_at, withdraw, retire, forfeit_player}
use bluffking.Round.Counted.{stakes, IsSolvent, modify-IsCounted}
use bluffking.Round.Effects.{IsBalanced}
use bluffking.Round.Frame.{IsCounted-SameChips, stakes-SameChips}
use bluffking.Round.Settle.{
  Settles, HasTurn, check_done-HasTurn, advance-HasTurn, check_done-Settles, advance-Settles,
  Settles-trans,
}
use bluffking.Round.Valid.{IsValid, Conserves}

pub record Forfeited (r : BettingRound) (player_id : ℕ) (moved : ℕ) (s : BettingRound)
    : Type 0 where
  pub idx : ℕ
  pub player : PlayerState
  pub found : position (λ p. p.player_id == player_id) r.players ≡ some idx
  pub at_idx : get_elem? r.players idx ≡ some player
  pub in_hand : player.folded ≡ false
  pub not_last : leb (count is_live r.players) 1 ≡ false
  pub moved_eq : moved ≡ 0
  pub finished : s ≡ retire r idx player

forfeit_player-Forfeited :
    (r : BettingRound) (player_id : ℕ) (moved : ℕ) (s : BettingRound)
    → forfeit_player r player_id ≡ ok (moved, s)
    → Forfeited r player_id moved s
unfolding forfeit_player
forfeit_player-Forfeited r player_id moved s h =
    elim (Option-cases (position (λ p. p.player_id == player_id) r.players)) [
      | inl e ↦ ground (arith)
      | inr (idx, e) ↦
          let (p, at_p, h₁) = >>=-eq-ok (player_at r idx) _ (rw (e, forfeit_player) at h) in
          let (in_hand, h₂) = >>-eq-ok (not p.folded) _ _ h₁ in
          let (not_last, h₃) = >>-eq-ok (not (leb (count is_live r.players) 1)) _ _ h₂ in
          record {
            idx = idx;
            player = p;
            found = e;
            at_idx = ground (arith, Option-cases (get_elem? r.players idx));
            in_hand = ground arith;
            not_last = ground arith;
            moved_eq = sym (ap (λ x. x.0) (ok-injective h₃));
            finished = sym (ap (λ x. x.1) (ok-injective h₃));
          }
    ]

module _ (r : BettingRound) (idx : ℕ) (p : PlayerState) (at_idx : get_elem? r.players idx ≡ some p)
    (in_hand : p.folded ≡ false) (v : IsValid r) where
  withdraw-IsBalanced : IsBalanced (withdraw r idx p)
  unfolding withdraw
  withdraw-IsBalanced =
      modify-IsCounted r.players r.n_can_act r.pot_total idx p at_idx v.balanced
        (λ q. record q { folded = true; has_acted = true }) _ _ refl
        (All-get IsSolvent r.players idx p at_idx v.balanced.solvent)
        (ground (arith, v.balanced.able_count, count-pos_of_get can_act r.players idx p at_idx))
        refl

  withdraw-stakes : stakes (withdraw r idx p).players ≡ stakes r.players
  unfolding withdraw
  withdraw-stakes = map-modify _ r.players idx _ p at_idx refl

  -- A turn that was another player's stays with that player.
  withdraw-HasTurn : idx ≢ r.current → HasTurn (withdraw r idx p)
  unfolding withdraw
  withdraw-HasTurn other = ground (
    arith,
    get_elem?-modify_ne r.players idx r.current (λ q. record q { folded = true; has_acted = true })
        other,
    v.turn,
  )

  retire-Settles : Settles (withdraw r idx p) (retire r idx p)
  unfolding retire
  retire-Settles = elim (Bool-cases (idx == r.current)) [
    | inl own ↦ rw own (Settles-trans _ _ _ (advance-Settles _) (check_done-Settles _))
    | inr other ↦ rw other (check_done-Settles _)
  ]

  retire-HasTurn : HasTurn (retire r idx p)
  unfolding retire
  retire-HasTurn = elim (Bool-cases (idx == r.current)) [
    | inl own ↦ rw own (check_done-HasTurn _ (advance-HasTurn _))
    | inr other ↦ rw other (check_done-HasTurn _ (withdraw-HasTurn (ground arith)))
  ]

  withdraw-pot : (withdraw r idx p).pot_total ≡ r.pot_total
  unfolding withdraw
  withdraw-pot = refl

  retire-Conserves : Conserves r 0 (retire r idx p)
  retire-Conserves =
      let settles = retire-Settles in
      record {
        valid = record {
          balanced =
              rw (settles.same_able, settles.same_pot)
                (IsCounted-SameChips _ _ settles.same_chips withdraw-IsBalanced);
          turn = retire-HasTurn;
        };
        pot = omega (arith, settles.same_pot, withdraw-pot);
        same_stakes = stakes-SameChips _ _ settles.same_chips ∙ withdraw-stakes;
      }

-- A forfeit that is accepted keeps the street valid, whoever's turn it was; it moves no chips, and
-- every player's chips stay what they were.
pub forfeit_player-Conserves :
    (r : BettingRound) (player_id moved : ℕ) (s : BettingRound)
    → IsValid r
    → forfeit_player r player_id ≡ ok (moved, s)
    → (moved ≡ 0) × Conserves r 0 s
forfeit_player-Conserves r player_id moved s v h =
    let f = forfeit_player-Forfeited r player_id moved s h in
    (f.moved_eq, rw (f.finished) (retire-Conserves r f.idx f.player f.at_idx f.in_hand v))

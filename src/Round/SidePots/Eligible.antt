-- ===== src/Round/SidePots/Eligible.antt =====
-- engine/src/round.rs: who may win a side pot.
use bluffking.Prelude.{
  ℕ, ◌+◌, ◌<◌, ◌≡◌, refl, sym, ◌∙◌, true, false, not, ◌&&◌, List, [], ◌∷◌, map, arith, leb, ltb,
  ◌==◌, length, filter, All, All-append, All-if,
}
use bluffking.Round.State.{PlayerState, BettingRound, is_live}
use bluffking.Round.SidePots.{
  SidePot, ids_where, is_nil, push_layer, layer, pots_above, contributions, side_pots,
}

-- The live players whose contribution reaches `cap`, in table order.
abbrev pub contenders : ℕ → List PlayerState → List ℕ
contenders cap ps = map (λ p. p.player_id) (filter (λ p. is_live p && leb cap p.contributed) ps)

pub record IsLayer (ps : List PlayerState) (pot : SidePot) : Type 0 where
  pub filled : 0 < pot.amount
  pub contested : pot.eligible ≡ contenders pot.cap ps
  pub payable : 0 < length pot.eligible + length pot.refund_to

ids_where-contenders :
    (cap : ℕ) (ps : List PlayerState)
    → ids_where (leb cap) (contributions (filter is_live ps)) ≡ contenders cap ps
unfolding filter
ids_where-contenders cap [] = refl
ids_where-contenders cap (p ∷ ps) = ground (arith, ids_where-contenders cap ps)

is_nil-eq : (xs : List ℕ) → is_nil xs ≡ true → xs ≡ []
unfolding is_nil
is_nil-eq [] h = refl
is_nil-eq (x ∷ xs) h = cc

is_nil-length : (xs : List ℕ) → is_nil xs ≡ false → 0 < length xs
unfolding is_nil
is_nil-length [] h = cc
is_nil-length (x ∷ xs) h = omega arith

push_layer-IsLayer :
    (ps : List PlayerState) (level amount : ℕ) (pot_eligible contributors : List ℕ)
    → pot_eligible ≡ contenders level ps
    → All (IsLayer ps) (push_layer level amount pot_eligible contributors)
unfolding push_layer
push_layer-IsLayer ps level amount pot_eligible contributors e =
    All-if (IsLayer ps) (level == 0) _ _ (λ _. tt)
      λ _.
        All-if (IsLayer ps) (amount == 0) _ _ (λ _. tt)
          λ filled.
            All-if (IsLayer ps) (not (is_nil pot_eligible)) _ _
              (λ some_in. (
                record {
                  filled = ground arith;
                  contested = e;
                  payable = ground (arith, is_nil-length pot_eligible);
                },
                tt,
              ))
              λ none_in.
                All-if (IsLayer ps) (not (is_nil contributors)) _ _
                  (λ some_put. (
                    record {
                      filled = ground arith;
                      contested = sym (is_nil-eq pot_eligible (ground arith)) ∙ e;
                      payable = ground (arith, is_nil-length contributors);
                    },
                    tt,
                  ))
                  (λ _. tt)

pots_above-IsLayer :
    (ps : List PlayerState) (all eligible : List (ℕ × ℕ)) (prev : ℕ) (levels : List ℕ)
    → ((level : ℕ) → ids_where (leb level) eligible ≡ contenders level ps)
    → All (IsLayer ps) (pots_above all eligible prev levels)
unfolding pots_above layer
pots_above-IsLayer ps all eligible prev [] h = tt
pots_above-IsLayer ps all eligible prev (level ∷ levels) h =
    All-append (IsLayer ps) (layer all eligible prev level) _
      (push_layer-IsLayer ps level _ _ (ids_where (ltb prev) all) (h level))
      (pots_above-IsLayer ps all eligible level levels h)

-- Every side pot holds chips, has somebody to pay them to, and may be won by exactly the players
-- who have not folded and whose contribution reaches its cap.
pub side_pots-IsLayer : (r : BettingRound) → All (IsLayer r.players) (side_pots r)
unfolding side_pots
side_pots-IsLayer r =
    All-if (IsLayer r.players) (is_nil (map (λ x. x.0) (contributions (filter is_live r.players))))
      _ _ (λ _. tt)
      λ _.
        pots_above-IsLayer r.players (contributions r.players)
          (contributions (filter is_live r.players)) 0 _
          (λ level. ids_where-contenders level r.players)

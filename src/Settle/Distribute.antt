-- ===== src/Settle/Distribute.antt =====
-- engine/src/game/pots.rs: `distribute_pots`, `distribute_pots_uncontested` and
-- `distribute_pots_among_survivors`. The set of forfeiters is a function.
use bluffking.Prelude.{
  keep, ℕ, ◌+◌, Bool, true, false, not, ◌&&◌, Option, none, some, List, [], ◌∷◌, map, ltb, ◌==◌,
  if◌then◌else◌, length, find, any, filter, take_while, contains,
}
use bluffking.Card.{HoleCards, BoardCards}
use bluffking.Eval.{Evaluator, HandRank, rank_eq, rank_players}
use bluffking.Round.SidePots.{SidePot, is_nil}
use bluffking.Settle.Split.{PotWinner, PotResult, split_pot}

-- `pots.iter().enumerate().filter_map(...)`, counted from `idx`.
unfoldable pub settle_all : (ℕ → SidePot → Option PotResult) → ℕ → List SidePot → List PotResult
settle_all settle idx [] = []
settle_all settle idx (pot ∷ pots) = keep (settle idx pot) (settle_all settle (idx + 1) pots)

-- `if pot.eligible.is_empty() { ids } else { pot.eligible }`
unfoldable pub shown_ids : List ℕ → List ℕ → List ℕ
shown_ids eligible ids = if is_nil eligible then ids else eligible

-- The equal split of a pot as a result, and none among nobody.
unfoldable pub split_result : (ℕ → Option ℕ) → ℕ → SidePot → List ℕ → Bool → Option PotResult
unfolding shown_ids
split_result order idx pot ids is_refund =
    if is_nil ids
    then none
    else some (record {
      index = idx;
      amount = pot.amount;
      eligible_player_ids = shown_ids pot.eligible ids;
      winners = split_pot ids pot.amount order;
      is_refund = is_refund;
    })

-- The eligible players who have cards, with them.
unfoldable pub contenders : List (ℕ × HoleCards) → List ℕ → List (ℕ × HoleCards)
contenders with_cards [] = []
contenders with_cards (pid ∷ ids) =
    keep (find (λ x. x.0 == pid) with_cards) (contenders with_cards ids)

-- The ids that share the best rank of a ranked list.
unfoldable pub tied_first : List (ℕ × HandRank) → List ℕ
tied_first [] = []
tied_first (best ∷ rest) = map (λ x. x.0) (take_while (λ x. rank_eq x.1 best.1) (best ∷ rest))

module _ (ev : Evaluator) (order : ℕ → Option ℕ) (board : BoardCards) where
  -- The winners of a pot among players with cards: a lone one, or those that tie for the best hand.
  unfoldable pub showdown_winners : List (ℕ × HoleCards) → ℕ → List PotWinner
  unfolding tied_first
  showdown_winners [] amount = []
  showdown_winners (c ∷ []) amount = record { player_id = c.0; amount_won = amount } ∷ []
  showdown_winners (c ∷ d ∷ cs) amount =
      split_pot (tied_first (rank_players ev (c ∷ d ∷ cs) board)) amount order

  module _ (with_cards : List (ℕ × HoleCards)) (forfeiters : ℕ → Bool) where
    unfoldable pub won_result : ℕ → SidePot → List (ℕ × HoleCards) → Option PotResult
    won_result idx pot cs = some (record {
      index = idx;
      amount = pot.amount;
      eligible_player_ids = pot.eligible;
      winners = showdown_winners cs pot.amount;
      is_refund = false;
    })

    -- A layer for which no contender reached the showdown.
    unfoldable pub unreached : ℕ → SidePot → Option PotResult
    unfolding won_result
    unreached idx pot =
        if any forfeiters pot.eligible && ltb 0 (length with_cards)
        then won_result idx pot with_cards
        else split_result order idx pot pot.eligible true

    -- The closure of `distribute_pots`.
    unfoldable pub settle_pot : ℕ → SidePot → Option PotResult
    unfolding won_result unreached
    settle_pot idx pot =
        let cs = contenders with_cards pot.eligible in
        if pot.amount == 0
        then none
        else if not (is_nil pot.refund_to)
        then split_result order idx pot pot.refund_to true
        else if length cs == 0
        then unreached idx pot
        else won_result idx pot cs

    unfoldable pub distribute_pots : List SidePot → List PotResult
    distribute_pots pots = settle_all settle_pot 0 pots

-- The survivors that a contested pot is split among.
unfoldable pub eligible_survivors : List ℕ → SidePot → List ℕ
eligible_survivors survivors pot =
    if is_nil pot.eligible then survivors else filter (λ pid. contains pid survivors) pot.eligible

module _ (order : ℕ → Option ℕ) where
  -- The closure `refund` of `distribute_pots_uncontested`.
  unfoldable pub refund : ℕ → SidePot → Option PotResult
  refund idx pot =
      split_result order idx pot (if is_nil pot.refund_to then pot.eligible else pot.refund_to) true

  unfoldable pub lone_result : Option ℕ → ℕ → SidePot → Option PotResult
  unfolding refund
  lone_result none idx pot = refund idx pot
  lone_result (some pid) idx pot =
      if contains pid pot.eligible
      then some (record {
        index = idx;
        amount = pot.amount;
        eligible_player_ids = pot.eligible;
        winners = record { player_id = pid; amount_won = pot.amount } ∷ [];
        is_refund = false;
      })
      else refund idx pot

  unfoldable pub settle_uncontested : Option ℕ → ℕ → SidePot → Option PotResult
  unfolding refund lone_result
  settle_uncontested lone idx pot =
      if pot.amount == 0
      then none
      else if not (is_nil pot.refund_to)
      then refund idx pot
      else lone_result lone idx pot

  unfoldable pub distribute_pots_uncontested : Option ℕ → List SidePot → List PotResult
  distribute_pots_uncontested lone pots = settle_all (settle_uncontested lone) 0 pots

  unfoldable pub settle_among : List ℕ → ℕ → SidePot → Option PotResult
  unfolding eligible_survivors
  settle_among survivors idx pot =
      if pot.amount == 0
      then none
      else if not (is_nil pot.refund_to)
      then split_result order idx pot pot.refund_to true
      else if not (is_nil (eligible_survivors survivors pot))
      then split_result order idx pot (eligible_survivors survivors pot) false
      else if not (is_nil survivors)
      then split_result order idx pot survivors false
      else split_result order idx pot pot.eligible true

  unfoldable pub distribute_pots_among_survivors : List ℕ → List SidePot → List PotResult
  distribute_pots_among_survivors survivors pots = settle_all (settle_among survivors) 0 pots

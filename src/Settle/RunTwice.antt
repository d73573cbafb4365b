-- ===== src/Settle/RunTwice.antt =====
-- engine/src/game/pots.rs: `split_pots_for_two_runs` and `merge_run_pots`, the halves of the pots
-- when the board is run twice.
use bluffking.Prelude.{
  ℕ, ◌+◌, ◌-◌, ◌/◌, ◌≤◌, ◌<◌, ◌≡◌, refl, Option, none, some, List, [], ◌∷◌, map, arith, ◌==◌,
  if◌then◌else◌, get_elem?, All, find, sum_by, add32, u32_mod, add32-eq,
}
use bluffking.Round.SidePots.{SidePot, is_nil}
use bluffking.Settle.Split.{PotWinner, PotResult}
use bluffking.Settle.OddChips.{awarded}
use bluffking.Settle.Totals.{total_amount, IsPayable}

-- What the second run plays for.
unfoldable pub second_amount : SidePot → ℕ
second_amount pot = if is_nil pot.refund_to then pot.amount / 2 else 0

unfoldable pub first_half : SidePot → SidePot
unfolding second_amount
first_half pot = record pot { amount = pot.amount - second_amount pot }

unfoldable pub second_half : SidePot → SidePot
unfolding second_amount
second_half pot = record pot { amount = second_amount pot }

unfoldable pub split_pots_for_two_runs : List SidePot → List SidePot × List SidePot
unfolding first_half second_half
split_pots_for_two_runs pots = (map first_half pots, map second_half pots)

-- Adds what `w` won to the winner with the id, or puts `w` last.
unfoldable pub credit : PotWinner → List PotWinner → List PotWinner
credit w [] = w ∷ []
credit w (x ∷ xs) =
    if x.player_id == w.player_id
    then record x { amount_won = add32 x.amount_won w.amount_won } ∷ xs
    else x ∷ credit w xs

-- The loop over the second run's winners.
unfoldable pub credit_all : List PotWinner → List PotWinner → List PotWinner
credit_all [] winners = winners
credit_all (w ∷ ws) winners = credit_all ws (credit w winners)

abbrev pub winners_of : Option PotResult → List PotWinner
winners_of none = []
winners_of (some r) = r.winners

abbrev pub amount_of : ℕ → Option SidePot → ℕ
amount_of default none = default
amount_of default (some p) = p.amount

unfoldable pub merge_result : List SidePot → List PotResult → PotResult → PotResult
unfolding credit_all
merge_result pots second run1 = record {
  index = run1.index;
  amount = amount_of run1.amount (get_elem? pots run1.index);
  eligible_player_ids = run1.eligible_player_ids;
  winners =
      credit_all (winners_of (find (λ (r : PotResult). r.index == run1.index) second)) run1.winners;
  is_refund = run1.is_refund;
}

unfoldable pub merge_run_pots : List SidePot → List PotResult → List PotResult → List PotResult
unfolding merge_result
merge_run_pots pots first second = map (merge_result pots second) first

pub second_amount-le : (pot : SidePot) → second_amount pot ≤ pot.amount
unfolding second_amount
second_amount-le pot = ground arith

-- The two runs play for the whole of every pot.
pub halves-amount :
    (pots : List SidePot)
    → total_amount (map first_half pots) + total_amount (map second_half pots) ≡ total_amount pots
unfolding sum_by first_half second_half second_amount
halves-amount [] = refl
halves-amount (p ∷ pots) = ground (arith, halves-amount pots)

pub halves-IsPayable :
    (pots : List SidePot)
    → All IsPayable pots
    → All IsPayable (map first_half pots) × All IsPayable (map second_half pots)
unfolding first_half second_half second_amount
halves-IsPayable [] h = (tt, tt)
halves-IsPayable (p ∷ pots) h =
    let rest = halves-IsPayable pots h.1 in
    let c = h.0 in
    (
      ((omega (arith, c.0, second_amount-le p), c.1, c.2, c.3), rest.0),
      ((omega (arith, c.0, second_amount-le p), c.1, c.2, c.3), rest.1),
    )

credit-awarded :
    (w : PotWinner) (ws : List PotWinner)
    → w.amount_won + awarded ws < u32_mod
    → awarded (credit w ws) ≡ w.amount_won + awarded ws
unfolding credit sum_by
credit-awarded w [] h = omega arith
credit-awarded w (x ∷ xs) h =
    ground (arith, add32-eq x.amount_won w.amount_won, credit-awarded w xs)

pub credit_all-awarded :
    (new ws : List PotWinner)
    → awarded new + awarded ws < u32_mod
    → awarded (credit_all new ws) ≡ awarded new + awarded ws
unfolding credit_all sum_by
credit_all-awarded [] ws h = omega arith
credit_all-awarded (w ∷ new) ws h =
    let one = credit-awarded w ws (omega (arith, h)) in
    omega (arith, one, credit_all-awarded new (credit w ws) (omega (arith, one, h)))

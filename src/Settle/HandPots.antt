-- ===== src/Settle/HandPots.antt =====
-- engine/src/game/pots.rs: `hand_side_pots`, the pots of a whole hand. A `none` stands for the panic
-- of `expect`.
use mathlib.Core.Option
use bluffking.Prelude.{
  ℕ, ◌-◌, min, max, Bool, not, ◌&&◌, Option, none, some, List, [], ◌∷◌, ◌++◌, map, ltb, leb, ◌==◌,
  if◌then◌else◌, filter, sort, dedup, sum32, add32,
}
use bluffking.Round.SidePots.{SidePot, ids_eq, is_nil, ids_where, lone_refund}
use bluffking.Settle.Seat.{HandSeat}

-- The part of the total that is the ante of the table.
unfoldable pub ante_of : Option (ℕ × ℕ) → ℕ → ℕ
ante_of none player_id = 0
ante_of (some (payer, amount)) player_id = if payer == player_id then amount else 0

unfoldable pub contribution : Option (ℕ × ℕ) → HandSeat → Option ℕ
unfolding ante_of
contribution ante s =
    if leb s.stack s.starting_stack
    then some (s.starting_stack - s.stack - ante_of ante s.player_id)
    else none

-- Each seat with its contribution.
unfoldable pub contributed : Option (ℕ × ℕ) → List HandSeat → Option (List (ℕ × ℕ))
contributed ante [] = some []
contributed ante (s ∷ seats) =
    Option.bind (contribution ante s)
      (λ c. Option.map (λ rest. (s.player_id, c) ∷ rest) (contributed ante seats))

-- The part of a contribution between the levels.
unfoldable pub slice_of : ℕ → ℕ → ℕ → ℕ
slice_of previous level c = min (c - previous) (level - previous)

-- Who may win a layer, and whom it goes back to.
unfoldable pub claims : List ℕ → List ℕ → List ℕ × List ℕ
claims pot_eligible contributors =
    if is_nil pot_eligible
    then ([], contributors)
    else (pot_eligible, lone_refund pot_eligible contributors)

unfoldable pub push_pot : ℕ → ℕ → List ℕ × List ℕ → List SidePot
push_pot level amount (eligible, refund_to) =
    if amount == 0
    then []
    else record { cap = level; amount = amount; eligible = eligible; refund_to = refund_to } ∷ []

module _ (all_seats eligible : List (ℕ × ℕ)) where
  -- The body of the loop over the levels.
  unfoldable pub hand_layer : ℕ → ℕ → List SidePot
  unfolding claims
  hand_layer previous level =
      push_pot level (sum32 (map (λ x. slice_of previous level x.1) all_seats))
        (claims (ids_where (leb level) eligible) (ids_where (ltb previous) all_seats))

  unfoldable pub hand_layers : ℕ → List ℕ → List SidePot
  hand_layers previous [] = []
  hand_layers previous (level ∷ levels) = hand_layer previous level ++ hand_layers level levels

-- The pot of the ante.
unfoldable pub ante_pot : Option (ℕ × ℕ) → List (ℕ × ℕ) → List SidePot
ante_pot none eligible = []
ante_pot (some (payer, amount)) eligible =
    record { cap = 0; amount = amount; eligible = map (λ x. x.0) eligible; refund_to = [] } ∷ []

-- The two pots have the same claims.
unfoldable pub same_claims : SidePot → SidePot → Bool
unfolding ids_eq
same_claims existing pot =
    ids_eq existing.eligible pot.eligible && ids_eq existing.refund_to pot.refund_to

-- The loop that joins a pot to the last one with the same claims.
unfoldable pub merge_into : SidePot → List SidePot → List SidePot
unfolding same_claims
merge_into existing [] = existing ∷ []
merge_into existing (pot ∷ pots) =
    if same_claims existing pot
    then merge_into
        (record existing {
          amount = add32 existing.amount pot.amount;
          cap = max existing.cap pot.cap;
        })
        pots
    else existing ∷ merge_into pot pots

unfoldable pub canonical : List SidePot → List SidePot
canonical [] = []
canonical (pot ∷ pots) = merge_into pot pots

abbrev pub levels_of : List (ℕ × ℕ) → List ℕ
levels_of xs = filter (ltb 0) (dedup (sort (map (λ x. x.1) xs)))

-- The pots, given the contributions of all seats and of those that did not fold.
unfoldable pub pots_of : Option (ℕ × ℕ) → List (ℕ × ℕ) → List (ℕ × ℕ) → List SidePot
pots_of ante all_seats eligible =
    if is_nil (map (λ x. x.0) eligible)
    then []
    else canonical
        (ante_pot ante eligible ++ hand_layers all_seats eligible 0 (levels_of all_seats))

unfoldable pub hand_side_pots : Option (ℕ × ℕ) → List HandSeat → Option (List SidePot)
hand_side_pots ante seats = Option.bind (contributed ante seats) (λ all_seats.
    Option.map (pots_of ante all_seats)
      (contributed ante (filter (λ (s : HandSeat). not s.folded) seats)))

-- ===== src/Round/SidePots.antt =====
-- engine/src/round.rs: `SidePot` and `BettingRound::side_pots`, the layers of a street's pot.
pub mod Layer
pub mod Sum
pub mod Eligible
use bluffking.Prelude.{
  ℕ, ◌-◌, Bool, true, false, not, ◌&&◌, List, [], ◌∷◌, ◌++◌, map, min, leb, ltb, ◌==◌,
  if◌then◌else◌, length, filter, sort, dedup, sum32,
}
use bluffking.Round.State.{PlayerState, BettingRound, is_live}

pub record SidePot : Type 0 where
  pub cap : ℕ
  pub amount : ℕ
  pub eligible : List ℕ
  pub refund_to : List ℕ

-- `Vec<PlayerId> == Vec<PlayerId>`
unfoldable pub ids_eq : List ℕ → List ℕ → Bool
ids_eq [] [] = true
ids_eq (x ∷ xs) (y ∷ ys) = x == y && ids_eq xs ys
ids_eq _ _ = false

unfoldable pub is_nil : List ℕ → Bool
is_nil [] = true
is_nil (x ∷ xs) = false

-- The players whose contribution passes the test.
abbrev pub ids_where : (ℕ → Bool) → List (ℕ × ℕ) → List ℕ
ids_where p xs = map (λ x. x.0) (filter (λ x. p x.1) xs)

-- What a contribution `c` puts between `prev` and `level`; levels ascend, so `prev` is not above.
unfoldable pub share_of : ℕ → ℕ → ℕ → ℕ
share_of prev level c = if leb c prev then 0 else min (level - prev) (c - prev)

-- The players to refund where the layer has an eligible player: its only contributor.
unfoldable pub lone_refund : List ℕ → List ℕ → List ℕ
unfolding ids_eq
lone_refund pot_eligible contributors =
    if length pot_eligible == 1 && ids_eq contributors pot_eligible then pot_eligible else []

-- The pot that the loop pushes for a level, if any.
unfoldable pub push_layer : ℕ → ℕ → List ℕ → List ℕ → List SidePot
push_layer level amount pot_eligible contributors =
    if level == 0
    then []
    else if amount == 0
    then []
    else if not (is_nil pot_eligible)
    then record {
      cap = level;
      amount = amount;
      eligible = pot_eligible;
      refund_to = lone_refund pot_eligible contributors;
    }
      ∷ []
    else if not (is_nil contributors)
    then record { cap = level; amount = amount; eligible = []; refund_to = contributors } ∷ []
    else []

module _ (all eligible : List (ℕ × ℕ)) where
  -- The body of the loop over the levels.
  unfoldable pub layer : ℕ → ℕ → List SidePot
  layer prev level =
      push_layer level (sum32 (map (λ x. share_of prev level x.1) all))
        (ids_where (leb level) eligible) (ids_where (ltb prev) all)

  -- The loop from the level after `prev` on.
  unfoldable pub pots_above : ℕ → List ℕ → List SidePot
  pots_above prev [] = []
  pots_above prev (level ∷ levels) = layer prev level ++ pots_above level levels

abbrev pub contributions : List PlayerState → List (ℕ × ℕ)
contributions = map (λ p. (p.player_id, p.contributed))

-- With nobody eligible there is no pot. (The source also returns early if nobody put anything in;
-- then the loop pushes nothing either.)
unfoldable pub side_pots : BettingRound → List SidePot
side_pots r =
    let all = contributions r.players in
    let eligible = contributions (filter is_live r.players) in
    if is_nil (map (λ x. x.0) eligible)
    then []
    else pots_above all eligible 0 (dedup (sort (map (λ x. x.1) all)))

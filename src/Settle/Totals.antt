-- ===== src/Settle/Totals.antt =====
-- engine/src/game/pots.rs: totals of the settlement functions, pot by pot.
use bluffking.Prelude.{
  keep, ℕ, ◌+◌, ◌<◌, ◌≡◌, refl, Bool, true, false, Option, none, some, List, [], ◌∷◌, arith, length,
  All, sum_by, IsNodup, u32_mod,
}
use bluffking.Round.SidePots.{SidePot, is_nil}
use bluffking.Settle.Split.{PotResult}
use bluffking.Settle.OddChips.{awarded, split_pot-awarded}
use bluffking.Settle.Distribute.{settle_all, split_result}

-- What a list of results pays.
abbrev pub total_awarded : List PotResult → ℕ
total_awarded = sum_by (λ r. awarded r.winners)

abbrev pub total_amount : List SidePot → ℕ
total_amount = sum_by (λ p. p.amount)

abbrev pub awarded_of : Option PotResult → ℕ
awarded_of none = 0
awarded_of (some r) = awarded r.winners

-- A pot of at most `u32::MAX` chips whose id lists name nobody twice, and that somebody put chips
-- in.
abbrev pub IsPayable : SidePot → Type 0
IsPayable pot =
    (pot.amount < u32_mod)
    × IsNodup pot.eligible
    × IsNodup pot.refund_to
    × (0 < length pot.eligible + length pot.refund_to)

pub keep-total :
    (o : Option PotResult) (results : List PotResult)
    → total_awarded (keep o results) ≡ awarded_of o + total_awarded results
unfolding sum_by
keep-total none results = omega arith
keep-total (some r) results = refl

-- Every pot is paid in full when the settlement of each one pays its amount.
pub settle_all-total {κ} :
    (P : SidePot → Type κ) (settle : ℕ → SidePot → Option PotResult)
    → ((idx : ℕ) (pot : SidePot) → P pot → awarded_of (settle idx pot) ≡ pot.amount)
    → (idx : ℕ) (pots : List SidePot) → All P pots
    → total_awarded (settle_all settle idx pots) ≡ total_amount pots
unfolding settle_all sum_by
settle_all-total P settle pays idx [] h = refl
settle_all-total P settle pays idx (pot ∷ pots) h = omega (
  arith,
  keep-total (settle idx pot) (settle_all settle (idx + 1) pots),
  settle_all-total P settle pays (idx + 1) pots h.1,
  pays idx pot h.0,
)

pub is_nil-length : (ids : List ℕ) → is_nil ids ≡ false → 0 < length ids
unfolding is_nil
is_nil-length [] e = cc
is_nil-length (x ∷ ids) e = omega arith

-- A split among somebody pays the pot.
pub split_result-awarded :
    (order : ℕ → Option ℕ) (idx : ℕ) (pot : SidePot) (ids : List ℕ) (b : Bool)
    → pot.amount < u32_mod
    → IsNodup ids
    → 0 < length ids
    → awarded_of (split_result order idx pot ids b) ≡ pot.amount
unfolding split_result is_nil
split_result-awarded order idx pot [] b h d p = omega arith
split_result-awarded order idx pot (x ∷ ids) b h d p =
    split_pot-awarded order (x ∷ ids) pot.amount d p h

pub is_nil-zero : (ids : List ℕ) → is_nil ids ≡ true → length ids ≡ 0
unfolding is_nil
is_nil-zero [] e = refl
is_nil-zero (x ∷ ids) e = cc

pub eligible-pos :
    (pot : SidePot)
    → 0 < length pot.eligible + length pot.refund_to
    → is_nil pot.refund_to ≡ true
    → 0 < length pot.eligible
unfolding is_nil
eligible-pos pot h e = omega (arith, is_nil-zero pot.refund_to e)

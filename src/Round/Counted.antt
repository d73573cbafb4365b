-- ===== src/Round/Counted.antt =====
-- engine/src/round.rs: the bookkeeping of a street, which is flags, stacks, counters and bounds.
use bluffking.Prelude.{
  ℕ, ◌+◌, ◌<◌, ◌≡◌, Bool, some, List, map, arith, ◌==◌, if◌then◌else◌, get_elem?, modify, count,
  sum_by, u32_mod, All, All-modify, sum_by-modify, count-modify, le-sum_by,
}
use bluffking.Round.State.{PlayerState, can_act}

-- The chips that a player brought to the street: those behind and those in the pot.
abbrev pub stake : PlayerState → ℕ
stake p = p.stack + p.contributed

-- Exactly the players with an empty stack are flagged all-in.
abbrev pub IsSolvent : PlayerState → Type 0
IsSolvent p = p.all_in ≡ (p.stack == 0)

pub record IsCounted (ps : List PlayerState) (able pot : ℕ) : Type 0 where
  pub solvent : All IsSolvent ps
  pub bound : sum_by stake ps < u32_mod
  pub able_count : able ≡ count can_act ps
  pub pot_sum : pot ≡ sum_by (λ p. p.contributed) ps

abbrev pub one_if : Bool → ℕ
one_if b = if b then 1 else 0

-- Who sits where with how many chips in all, which no action changes.
abbrev pub stakes : List PlayerState → List (ℕ × ℕ)
stakes = map (λ p. (p.player_id, stake p))

module _ (ps : List PlayerState) (able pot idx : ℕ) (p : PlayerState)
    (at_idx : get_elem? ps idx ≡ some p) (v : IsCounted ps able pot) where
  pub stake-bound : stake p < u32_mod
  stake-bound = omega (arith, le-sum_by stake ps idx p at_idx, v.bound)

  -- One player is overwritten, within the same stake.
  pub modify-IsCounted :
      (f : PlayerState → PlayerState) (able' pot' : ℕ)
      → stake (f p) ≡ stake p
      → IsSolvent (f p)
      → able' + one_if (can_act p) ≡ able + one_if (can_act (f p))
      → pot' + p.contributed ≡ pot + (f p).contributed
      → IsCounted (modify ps idx f) able' pot'
  modify-IsCounted f able' pot' same solvent counted summed = record {
    solvent = All-modify IsSolvent ps idx f p at_idx solvent v.solvent;
    bound = omega (arith, sum_by-modify stake ps idx f p at_idx, v.bound);
    able_count = omega (arith, count-modify can_act ps idx f p at_idx, v.able_count);
    pot_sum = omega (arith, sum_by-modify (λ q. q.contributed) ps idx f p at_idx, v.pot_sum);
  }

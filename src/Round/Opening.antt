-- ===== src/Round/Opening.antt =====
-- engine/src/round.rs: the streets of `new` and `new_preflop` before their posts.
use bluffking.Prelude.{
  ℕ, zero, suc, ◌+◌, ◌<◌, ◌≡◌, refl, true, List, [], ◌∷◌, map, arith, length, sum_by, u32_mod, All,
}
use bluffking.Round.State.{PlayerState, BettingRound, new_state}
use bluffking.Round.Turn.{seek_loop, seek_active}
use bluffking.Round.Open.{all_in_if_broke, unopened, opened, seated}
use bluffking.Round.Counted.{stake, stakes, IsSolvent}
use bluffking.Round.Settle.{
  SameTable, SameTable-trans, HasTurn, check_done-HasTurn, check_done-SameTable,
}
use bluffking.Round.Valid.{IsValid}

seek_loop-SameTable : (k i start n : ℕ) (r : BettingRound) → SameTable r (seek_loop k i start n r)
unfolding seek_loop
seek_loop-SameTable zero i start n r = record {
  same_players = refl;
  same_pot = refl;
  same_able = refl;
}
seek_loop-SameTable (suc k) i start n r = ground (arith, seek_loop-SameTable k (i + 1) start n r)

seek_loop-HasTurn : (k i start n : ℕ) (r : BettingRound) → HasTurn (seek_loop k i start n r)
unfolding seek_loop
seek_loop-HasTurn zero i start n r = refl
seek_loop-HasTurn (suc k) i start n r = ground (arith, seek_loop-HasTurn k (i + 1) start n r)

seek_active-SameTable : (r : BettingRound) → SameTable r (seek_active r)
unfolding seek_active
seek_active-SameTable r =
    ground (arith, seek_loop-SameTable (length r.players) 0 r.current (length r.players) r)

seek_active-HasTurn : (r : BettingRound) → HasTurn (seek_active r)
unfolding seek_active
seek_active-HasTurn r =
    ground (arith, seek_loop-HasTurn (length r.players) 0 r.current (length r.players) r)

pub opened-SameTable :
    (states : List PlayerState) (first bet big_blind pot : ℕ)
    → SameTable (unopened states first bet big_blind pot) (opened states first bet big_blind pot)
unfolding opened
opened-SameTable states first bet big_blind pot =
    SameTable-trans _ _ _ (seek_active-SameTable _) (check_done-SameTable _)

pub opened-HasTurn :
    (states : List PlayerState) (first bet big_blind pot : ℕ)
    → HasTurn (opened states first bet big_blind pot)
unfolding opened
opened-HasTurn states first bet big_blind pot = check_done-HasTurn _ (seek_active-HasTurn _)

pub opened-IsValid :
    (states : List PlayerState) (first bet big_blind pot : ℕ)
    → All IsSolvent states
    → sum_by stake states < u32_mod
    → pot ≡ sum_by (λ p. p.contributed) states
    → IsValid (opened states first bet big_blind pot)
opened-IsValid states first bet big_blind pot solvent bound summed =
    let same = opened-SameTable states first bet big_blind pot in
    record {
      balanced =
          rw (same.same_players, same.same_pot, same.same_able)
            (record { solvent = solvent; bound = bound; able_count = refl; pot_sum = summed });
      turn = opened-HasTurn states first bet big_blind pot;
    }

-- The chips that the callers hand over, summed.
abbrev pub total : List (ℕ × ℕ) → ℕ
total = sum_by (λ (id, stack). stack)

-- Flags only follow empty stacks.
abbrev pub IsHonest : PlayerState → Type 0
IsHonest p = p.all_in ≡ true → p.stack ≡ 0

pub flag-IsSolvent :
    (ps : List PlayerState) → All IsHonest ps → All IsSolvent (map all_in_if_broke ps)
flag-IsSolvent [] h = tt
flag-IsSolvent (p ∷ ps) h = (ground (arith, h.0), flag-IsSolvent ps h.1)

pub flag-sum_by :
    (g : PlayerState → ℕ) (ps : List PlayerState)
    → ((p : PlayerState) → g (all_in_if_broke p) ≡ g p)
    → sum_by g (map all_in_if_broke ps) ≡ sum_by g ps
unfolding sum_by
flag-sum_by g [] h = refl
flag-sum_by g (p ∷ ps) h = omega (arith, h p, flag-sum_by g ps h)

pub flag-stakes : (ps : List PlayerState) → stakes (map all_in_if_broke ps) ≡ stakes ps
flag-stakes [] = refl
flag-stakes (p ∷ ps) = ground (arith, flag-stakes ps)

pub seated_lem :
    (players : List (ℕ × ℕ))
    → All IsHonest (seated players)
      × (sum_by stake (seated players) ≡ total players)
      × (sum_by (λ p. p.contributed) (seated players) ≡ 0)
      × (stakes (seated players) ≡ players)
unfolding new_state sum_by
seated_lem [] = (tt, refl, refl, refl)
seated_lem ((id, stack) ∷ players) =
    let (honest, staked, none_in, same) = seated_lem players in
    let none_yet : stack + 0 ≡ stack = omega arith in
    (((λ h. cc), honest), omega arith, omega arith, λ i. (id, none_yet i) ∷ same i)

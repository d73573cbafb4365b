-- ===== src/Round/Started.antt =====
-- engine/src/round.rs: the validity of the streets that `new` and `new_preflop` open.
use bluffking.Prelude.{
  ℕ, ◌<◌, ◌≡◌, refl, sym, ap, ◌∙◌, List, [], ◌∷◌, map, arith, sum_by, count, u32_mod, All,
}
use bluffking.Round.State.{PlayerState, empty}
use bluffking.Round.Open.{all_in_if_broke, opened, seated, new, new_preflop}
use bluffking.Round.Counted.{stake, stakes}
use bluffking.Round.Valid.{IsValid}
use bluffking.Round.Opening.{
  opened-SameTable, opened-IsValid, total, IsHonest, flag-IsSolvent, flag-sum_by, flag-stakes,
  seated_lem,
}
use bluffking.Round.Posting.{foldl-IsPosted}

empty-IsValid : (bet big_blind : ℕ) → IsValid (empty bet big_blind)
unfolding empty sum_by count
empty-IsValid bet big_blind = record {
  balanced = record { solvent = tt; bound = omega arith; able_count = refl; pot_sum = refl };
  turn = refl;
}

flagged-IsValid :
    (states : List PlayerState) (first bet big_blind pot : ℕ) (given : List (ℕ × ℕ))
    → All IsHonest states
    → sum_by stake states < u32_mod
    → pot ≡ sum_by (λ p. p.contributed) states
    → stakes states ≡ given
    → let r = opened (map all_in_if_broke states) first bet big_blind pot in
      IsValid r × (stakes r.players ≡ given)
flagged-IsValid states first bet big_blind pot given honest bound summed same = (
  opened-IsValid (map all_in_if_broke states) first bet big_blind pot (flag-IsSolvent states honest)
      (omega (arith, flag-sum_by stake states (λ p. ground arith)))
      (omega (arith, flag-sum_by (λ p. p.contributed) states (λ p. ground arith))),
  ap stakes (opened-SameTable (map all_in_if_broke states) first bet big_blind pot).same_players
      ∙ flag-stakes states
      ∙ same,
)

-- A postflop street over stacks that sum below 2 ^ 32 is valid, and each player starts it with the
-- stack that was passed in.
pub new-IsValid :
    (players : List (ℕ × ℕ)) (first_actor bet big_blind : ℕ)
    → total players < u32_mod
    → let r = new players first_actor bet big_blind in IsValid r × (stakes r.players ≡ players)
unfolding new
new-IsValid [] first_actor bet big_blind h = (empty-IsValid bet big_blind, refl)
new-IsValid (p ∷ ps) first_actor bet big_blind h =
    let (honest, staked, none_in, same) = seated_lem (p ∷ ps) in
    flagged-IsValid (seated (p ∷ ps)) first_actor bet big_blind 0 (p ∷ ps) honest (omega arith)
      (sym none_in) same

-- A preflop street over stacks that sum below 2 ^ 32 is valid whatever blinds are posted: a blind takes
-- no more than the stack, so each player's chips behind and in the pot are the stack passed in.
pub new_preflop-IsValid :
    (players : List (ℕ × ℕ)) (first_actor : ℕ) (blinds : List (ℕ × ℕ)) (big_blind : ℕ)
    → total players < u32_mod
    → let r = new_preflop players first_actor blinds big_blind in
      IsValid r × (stakes r.players ≡ players)
unfolding new_preflop
new_preflop-IsValid [] first_actor blinds big_blind h = (empty-IsValid 0 big_blind, refl)
new_preflop-IsValid (p ∷ ps) first_actor blinds big_blind h =
    let (honest, staked, none_in, same) = seated_lem (p ∷ ps) in
    let v =
      foldl-IsPosted (p ∷ ps) blinds
        (record { players = seated (p ∷ ps); current_bet = 0; total_posted = 0 })
        (record {
          honest = honest;
          bound = omega arith;
          posted_sum = sym none_in;
          same_stakes = same;
        }) in
    flagged-IsValid _ first_actor _ big_blind _ (p ∷ ps) v.honest v.bound v.posted_sum v.same_stakes

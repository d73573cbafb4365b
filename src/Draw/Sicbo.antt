-- ===== src/Draw/Sicbo.antt =====
-- draw-games/verifier/src/sicbo.rs: draws of three dice, the small and big payouts, and the check
-- of a published proof. The JSON text of a proof is read and written by `serde_json`.
pub mod Rules
pub mod Verify
pub mod Rolls
use bluffking.Prelude.{
  ℕ, zero, suc, ◌+◌, ◌-◌, ◌*◌, ◌/◌, ◌%◌, ◌≤◌, ◌<◌, min, max, ◌≡◌, refl, sym, ap, subst, ◌∙◌, ◌≢◌,
  ◌↔◌, ◌⊎◌, inl, inr, Bool, true, false, not, ◌&&◌, ◌||◌, Option, none, some, List, [], ◌∷◌, ◌++◌,
  map, ℤ, pos, negsuc, negate, within, same_int, same_int-eq, same_int_self, arith, ltb, leb, ◌==◌,
  if◌then◌else◌, if-elim, Bool-cases, Option-cases, ==_iff, ==_self, length, get_elem?, All,
  length-append, keep, length-map, All-append, All-if, modify, find, position, any, all, filter,
  count, sum_by, drop, drop-get, rotate, take-all, length-drop, count-rotate, map-filter-IsNodup,
  sort_by-All, IsSorted, sort_by-IsSorted, filter-sort_by, take_while-filter, take, take_while,
  map-sort_by-IsNodup, map-take_while-IsNodup, contains-map-sort_by, contains-map-take_while,
  sum_by-add, get-in_range, get-bound, position-get, position-any, count-modify, length-modify,
  get_elem?-modify_ne, get_elem?-modify_self, sort, dedup, sum32, sum, IsAscending, Occurs,
  sum32-eq, sort-IsAscending, sort-Occurs, dedup-IsAscending, dedup-Occurs, insert_by, sort_by,
  contains, sum_by-sort_by, length-sort_by, IsNodup, contains-sort_by, sort_by-IsNodup, sum_by-take,
  sum_by-const, sum_by-map, add32, sub32, u32_mod, saturating_add, add32-eq, sub32-eq,
}
use bluffking.Draw.{
  Outcome, panicked, starved, err, ok, ◌>>=◌, ◌>>◌, guard, same, codes, wrong_game,
  room_client_seed, wrong_kind, draw_mismatch, stake_out_of_range, payout_mismatch,
  incomplete_payout,
}
use bluffking.Draw.Proof.{Crates, Reveal, Entropy, entropy, below}

pub data Side : Type 0 where
  small big : Side

-- `[u8; 3]`
pub record Dice : Type 0 where
  pub first : ℕ
  pub second : ℕ
  pub third : ℕ

-- `(1..=6).contains(die)`
abbrev pub on_die : ℕ → Bool
on_die n = leb 1 n && leb n 6

-- `dice[0] == dice[1] && dice[1] == dice[2]`
abbrev pub is_triple : Dice → Bool
is_triple d = (d.first == d.second) && (d.second == d.third)

-- `dice.iter().sum::<u8>()`
abbrev pub total : Dice → ℕ
total d = (d.first + d.second + d.third) % 256

unfoldable pub wins : Dice → Side → Bool
wins d side =
    if not (on_die d.first && (on_die d.second && on_die d.third)) || is_triple d
    then false
    else elim side [
      | small ↦ leb 4 (total d) && leb (total d) 10
      | big ↦ leb 11 (total d) && leb (total d) 17
    ]

unfoldable pub delta : Dice → Side → ℤ → ℤ
delta d side stake = if wins d side then stake else negate stake

-- The fields of a published proof.
pub record SicboProof : Type 0 where
  pub kind : List ℕ
  pub reveal : Reveal
  pub dice : Dice
  pub total_shown : ℕ
  pub triple : Bool
  pub side : Option Side
  pub stake : Option ℤ
  pub won : Option Bool
  pub delta_shown : Option ℤ

abbrev pub draw_proof : Reveal → Dice → SicboProof
draw_proof r d = record {
  kind = r.commitment.game;
  reveal = r;
  dice = d;
  total_shown = total d;
  triple = is_triple d;
  side = none;
  stake = none;
  won = none;
  delta_shown = none;
}

abbrev pub payout_proof : Reveal → Dice → Side → ℤ → SicboProof
payout_proof r d side stake = record (draw_proof r d) {
  side = some side;
  stake = some stake;
  won = some (wins d side);
  delta_shown = some (delta d side stake);
}

abbrev pub same_dice : Dice → Dice → Bool
same_dice a b = (a.first == b.first) && ((a.second == b.second) && (a.third == b.third))

abbrev pub same_bool : Bool → Bool → Bool
same_bool true b = b
same_bool false b = not b

-- The stakes that a proof of this kind may show.
abbrev pub allowed : List ℕ → ℤ → Bool
allowed kind stake =
    if same kind (codes "sicbo") then within 1 1000000000000 stake else within 10 1000 stake

-- The match of `verify` on the payout fields.
unfoldable pub check_payout :
    SicboProof → Dice → Option Side → Option ℤ → Option Bool → Option ℤ → Outcome SicboProof
check_payout p d (some side) (some stake) (some won) (some claimed) = do
  guard (allowed p.kind stake) stake_out_of_range
  guard (same_bool won (wins d side) && same_int claimed (delta d side stake)) payout_mismatch
  ok (payout_proof p.reveal d side stake)
check_payout p d none none none none =
    if same p.kind (codes "sicbo-room") then ok (draw_proof p.reveal d) else err incomplete_payout
check_payout p d _ _ _ _ = err incomplete_payout

-- `verify` after the dice are drawn again.
abbrev pub check_draw : SicboProof → Dice → Outcome SicboProof
check_draw p d =
    guard (same_dice p.dice d && ((p.total_shown == total d) && same_bool p.triple (is_triple d)))
      draw_mismatch
    >> check_payout p d p.side p.stake p.won p.delta_shown

module _ (crates : Crates) (fuel : ℕ) where
  -- `(entropy.below(6) + 1) as u8`
  unfoldable pub roll : Entropy → Outcome (ℕ × Entropy)
  roll e = below crates fuel e 6 >>= λ (x : ℕ × Entropy). ok (x.0 + 1, x.1)

  unfoldable pub three_dice : Entropy → Outcome Dice
  three_dice e = do
    a ← roll e
    b ← roll a.1
    c ← roll b.1
    ok (record { first = a.0; second = b.0; third = c.0 })

  unfoldable pub draw : Reveal → Outcome Dice
  draw r = do
    guard (same r.commitment.game (codes "sicbo") || same r.commitment.game (codes "sicbo-room"))
        wrong_game
    guard (not (same r.commitment.game (codes "sicbo-room") && not (length r.client_seed == 0)))
        room_client_seed
    e ← entropy crates r
    three_dice e

  unfoldable pub verify : SicboProof → Outcome SicboProof
  verify p =
      guard (same p.kind p.reveal.commitment.game) wrong_kind >> (draw p.reveal >>= check_draw p)

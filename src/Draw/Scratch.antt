-- ===== src/Draw/Scratch.antt =====
-- draw-games/verifier/src/scratch.rs: the cards of a purchase, their prizes and rewards, and the
-- check of a receipt.
pub mod Payout
pub mod Cards
pub mod Rewards
pub mod Verify
use bluffking.Prelude.{
  ℕ, zero, suc, ◌+◌, ◌-◌, ◌*◌, ◌/◌, ◌%◌, ◌≤◌, ◌<◌, min, max, ◌≡◌, refl, sym, ap, subst, ◌∙◌, ◌≢◌,
  ◌↔◌, ◌⊎◌, inl, inr, Bool, true, false, not, ◌&&◌, ◌||◌, Option, none, some, List, [], ◌∷◌, ◌++◌,
  map, ℤ, pos, negsuc, negate, plus, times, within, same_int, same_int-eq, same_int_self, arith,
  ltb, leb, ◌==◌, if◌then◌else◌, if-elim, Bool-cases, Option-cases, ==_iff, ==_self, length,
  get_elem?, All, length-append, keep, length-map, All-append, All-if, modify, find, position, any,
  all, filter, count, sum_by, drop, drop-get, rotate, take-all, length-drop, count-rotate,
  map-filter-IsNodup, sort_by-All, IsSorted, sort_by-IsSorted, filter-sort_by, take_while-filter,
  take, take_while, map-sort_by-IsNodup, map-take_while-IsNodup, contains-map-sort_by,
  contains-map-take_while, sum_by-add, get-in_range, get-bound, position-get, position-any,
  count-modify, length-modify, get_elem?-modify_ne, get_elem?-modify_self, sort, dedup, sum32, sum,
  IsAscending, Occurs, sum32-eq, sort-IsAscending, sort-Occurs, dedup-IsAscending, dedup-Occurs,
  insert_by, sort_by, contains, sum_by-sort_by, length-sort_by, IsNodup, contains-sort_by,
  sort_by-IsNodup, sum_by-take, sum_by-const, sum_by-map, add32, sub32, u32_mod, saturating_add,
  add32-eq, sub32-eq,
}
use bluffking.Draw.{
  Outcome, panicked, starved, err, ok, ◌>>=◌, ◌>>◌, guard, or_refuse, or_panic, same, codes,
  wrong_game, wrong_kind, bad_purchase, bad_card, index_outside, receipt_mismatch,
  bad_reward_version, reward_mismatch, bad_reward, bad_reward_purchase,
}
use bluffking.Draw.Proof.{Crates, Reveal, Entropy, entropy, below}

abbrev pub prizes : List ℕ
prizes = 1 ∷ 1 ∷ 2 ∷ 2 ∷ 5 ∷ 10 ∷ []

pub data Reward : Type 0 where
  beans : (amount : ℤ) → Reward
  membership : (tier : List ℕ) (days : ℤ) → Reward

abbrev pub top_reward_beans : ℕ
top_reward_beans = 500000

unfoldable pub settled_beans : Reward → Outcome ℤ
settled_beans (beans amount) = elim amount [
  | pos n ↦ if ltb 0 n then ok (pos n) else err bad_reward
  | negsuc n ↦ err bad_reward
]
settled_beans (membership tier days) =
    if same tier (codes "max") && same_int days (pos 30)
    then ok (pos top_reward_beans)
    else err bad_reward

-- The reward for a draw below 10 000
unfoldable pub reward_for : ℕ → ℕ → Option Reward
reward_for version n =
    if leb n 19
    then some (beans (pos 10000))
    else if n == 20
    then some (beans (pos 100000))
    else if leb 21 n && leb n 30
    then some (beans (pos 1000))
    else if (n == 31) && (version == 1)
    then some (membership (codes "max") (pos 30))
    else if n == 31
    then some (beans (pos top_reward_beans))
    else none

pub record ScratchCard : Type 0 where
  pub numbers : List ℤ
  pub lucky : ℤ
  pub prize : ℤ
  pub hits : ℕ

-- The loop of `payout` over the numbers and the multipliers.
unfoldable pub award : ℤ → ℤ → List ℤ → List ℕ → ℤ × ℕ → ℤ × ℕ
award cost lucky (number ∷ numbers) (multiplier ∷ multipliers) won =
    award cost lucky numbers multipliers
      (if same_int number lucky then (plus won.0 (times cost multiplier), won.1 + 1) else won)
award cost lucky _ _ won = won

unfoldable pub payout : ℤ → ℤ → List ℤ → Outcome (ℤ × ℕ)
payout cost lucky numbers =
    guard
      (not (
        not (same_int cost (pos 100))
        || (not (within 1 30 lucky) || any (λ n. not (within 1 30 n)) numbers)))
      bad_card
    >> ok (award cost lucky numbers prizes (pos 0, 0))

module _ (crates : Crates) (fuel : ℕ) where
  -- `entropy.below(30) as i16 + 1`
  unfoldable pub number : Entropy → Outcome (ℤ × Entropy)
  number e = below crates fuel e 30 >>= λ (x : ℕ × Entropy). ok (pos (x.0 + 1), x.1)

  -- `array::from_fn` of so many numbers
  unfoldable pub numbers_from : ℕ → Entropy → Outcome (List ℤ × Entropy)
  numbers_from zero e = ok ([], e)
  numbers_from (suc n) e = number e >>= λ (x : ℤ × Entropy).
      numbers_from n x.1 >>= λ (y : List ℤ × Entropy). ok (x.0 ∷ y.0, y.1)

  -- One card of a purchase.
  unfoldable pub draw_card : ℤ → Entropy → Outcome (ScratchCard × Entropy)
  draw_card cost e = numbers_from 6 e >>= λ (x : List ℤ × Entropy).
      number x.1 >>= λ (y : ℤ × Entropy). payout cost y.0 x.0 >>= λ (won : ℤ × ℕ).
      ok (record { numbers = x.0; lucky = y.0; prize = won.0; hits = won.1 }, y.1)

  unfoldable pub draw_cards : ℤ → ℕ → Entropy → Outcome (List ScratchCard)
  draw_cards cost zero e = ok []
  draw_cards cost (suc n) e = draw_card cost e >>= λ (x : ScratchCard × Entropy).
      draw_cards cost n x.1 >>= λ cards. ok (x.0 ∷ cards)

  unfoldable pub generate : Reveal → ℤ → ℕ → Outcome (List ScratchCard)
  generate r cost count = do
    guard (same r.commitment.game (codes "scratch")) wrong_game
    guard (same_int cost (pos 100) && (leb 1 count && leb count 1000)) bad_purchase
    e ← entropy crates r
    draw_cards cost count e

  unfoldable pub replay : Reveal → ℤ → ℕ → ℕ → Outcome ScratchCard
  replay r cost count index = do
    guard (ltb index count) index_outside
    cards ← generate r cost count
    or_refuse (get_elem? cards index) index_outside

  -- The words of the purchase's numbers, which the rewards come after.
  unfoldable pub skip : ℕ → Entropy → Outcome Entropy
  skip zero e = ok e
  skip (suc n) e = below crates fuel e 30 >>= λ (x : ℕ × Entropy). skip n x.1

  unfoldable pub draw_rewards : ℕ → ℕ → Entropy → Outcome (List (Option Reward))
  draw_rewards version zero e = ok []
  draw_rewards version (suc n) e = below crates fuel e 10000 >>= λ (x : ℕ × Entropy).
      draw_rewards version n x.1 >>= λ rest. ok (reward_for version x.0 ∷ rest)

  unfoldable pub rewards : Reveal → ℤ → ℕ → ℕ → Outcome (List (Option Reward))
  rewards r cost count version = do
    guard
        (same r.commitment.game (codes "scratch")
          && (same_int cost (pos 100)
              && ((leb 1 count && leb count 1000) && (leb 1 version && leb version 2))))
        bad_reward_purchase
    e ← entropy crates r
    e' ← skip (count * 7) e
    draw_rewards version count e'

pub record Receipt : Type 0 where
  pub kind : List ℕ
  pub reveal : Reveal
  pub cost : ℤ
  pub count : ℕ
  pub index : ℕ
  pub numbers : List ℤ
  pub lucky : ℤ
  pub prize : ℤ
  pub hits : ℤ
  pub reward_version : ℕ
  pub reward : Option Reward

-- The fields of what `verify` returns, beside `"verified": true` and the kind.
pub record Verified : Type 0 where
  pub reward_version : ℕ
  pub reward : Option Reward
  pub reward_beans : Option ℤ
  pub draw_id : List ℕ
  pub cost : ℤ
  pub count : ℕ
  pub index : ℕ
  pub card : ScratchCard

unfoldable pub same_ints : List ℤ → List ℤ → Bool
same_ints [] [] = true
same_ints (x ∷ xs) (y ∷ ys) = same_int x y && same_ints xs ys
same_ints _ _ = false

abbrev pub same_card : Receipt → ScratchCard → Bool
same_card r c =
    same_ints r.numbers c.numbers
    && (same_int r.lucky c.lucky && (same_int r.prize c.prize && same_int r.hits (pos c.hits)))

unfoldable pub same_reward : Option Reward → Option Reward → Bool
same_reward none none = true
same_reward (some (beans m)) (some (beans n)) = same_int m n
same_reward (some (membership t m)) (some (membership u n)) = same t u && same_int m n
same_reward _ _ = false

-- `reward.as_ref().map(Reward::settled_beans).transpose()`
unfoldable pub settled : Option Reward → Outcome (Option ℤ)
settled none = ok none
settled (some reward) = settled_beans reward >>= λ n. ok (some n)

module _ (crates : Crates) (fuel : ℕ) where
  abbrev pub verified : Receipt → ScratchCard → Option ℤ → Verified
  verified r c paid = record {
    reward_version = r.reward_version;
    reward = r.reward;
    reward_beans = paid;
    draw_id = r.reveal.commitment.draw_id;
    cost = r.cost;
    count = r.count;
    index = r.index;
    card = c;
  }

  -- `verify` after the rewards are drawn again
  abbrev pub check_reward : Receipt → ScratchCard → List (Option Reward) → Outcome Verified
  check_reward r c expected = or_panic (get_elem? expected r.index) >>= λ reward.
      guard (same_reward reward r.reward) reward_mismatch
      >> (settled r.reward >>= λ paid. ok (verified r c paid))

  -- `verify` after the card is drawn again
  abbrev pub check_card : Receipt → ScratchCard → Outcome Verified
  check_card r c =
      guard (same_card r c) receipt_mismatch
      >> (guard (leb 1 r.reward_version && leb r.reward_version 2) bad_reward_version
          >> (rewards crates fuel r.reveal r.cost r.count r.reward_version >>= check_reward r c))

  unfoldable pub verify : Receipt → Outcome Verified
  verify r =
      guard (same r.kind (codes "scratch")) wrong_kind
      >> (replay crates fuel r.reveal r.cost r.count r.index >>= check_card r)

-- ===== src/Draw/Tests/Scratch.antt =====
-- draw-games/verifier/src/scratch.rs: examples of the theorems, and runs.
use bluffking.Prelude.{
  ◌*◌, ◌≤◌, ◌≡◌, refl, ◌↔◌, Option, none, List, [], ◌∷◌, map, ℤ, pos, same_int, arith, length, All,
  any, all, count,
}
use bluffking.Draw.{err, ok, codes, bad_reward}
use bluffking.Draw.Proof.{
  Reveal, Entropy, entropy, commit, known_game, shared_game, sha256_fields, seed_bytes, framed,
  to_be_bytes, client_bytes, outcome_stream,
}
use bluffking.Draw.Scratch.{
  prizes, ScratchCard, Reward, membership, Receipt, Verified, award, payout, generate, rewards,
  settled, settled_beans, verify,
}
use bluffking.Draw.Scratch.Payout.{matched, payout-matched}
use bluffking.Draw.Scratch.Cards.{IsCard, generate-IsCard}
use bluffking.Draw.Scratch.Rewards.{IsPaid, rewards-IsPaid}
use bluffking.Draw.Scratch.Verify.{IsIssued, receipt, verify-IsIssued}
use bluffking.Draw.Tests.Toy.{revealed, seed, seed_text, toy, toy-HasWords}

abbrev bought : Reveal
bought = revealed (codes "scratch") (codes "9") seed_text

abbrev stream : Entropy
stream = outcome_stream toy (codes "scratch") (codes "9") seed seed

bought-opens : entropy toy bought ≡ ok stream
unfolding entropy commit known_game seed_bytes all client_bytes shared_game sha256_fields framed
    to_be_bytes
bought-opens = refl

abbrev numbers : List ℤ
numbers = pos 4 ∷ pos 8 ∷ pos 4 ∷ pos 1 ∷ pos 30 ∷ pos 4 ∷ []

paid : payout (pos 100) (pos 4) numbers ≡ ok (pos 1300, 3)
unfolding payout any award
paid = refl

payout-matched_example :
    (pos 1300 ≡ pos (100 * matched (pos 4) numbers prizes))
    × (3 ≡ count (λ n. same_int n (pos 4)) numbers)
    × (3 ≤ matched (pos 4) numbers prizes)
    × (100 * matched (pos 4) numbers prizes ≤ 2100)
    × (matched (pos 4) numbers prizes ≤ 10 * 3)
payout-matched_example = payout-matched (pos 4) numbers refl paid

generate-IsCard_example :
    (cards : List ScratchCard) × (generate toy 8 bought (pos 100) 5 ≡ ok cards)
    × (length cards ≡ 5)
    × All IsCard cards
generate-IsCard_example =
    generate-IsCard toy 8 (omega arith) bought 5 bought-opens (toy-HasWords stream.seed) refl
      (omega arith) (omega arith)

rewards-IsPaid_example :
    (xs : List (Option Reward)) × (ys : List (Option Reward)) × (rewards toy 8 bought (pos 100) 5 1
      ≡ ok xs)
    × (rewards toy 8 bought (pos 100) 5 2 ≡ ok ys)
    × (map settled xs ≡ map settled ys)
    × (length ys ≡ 5)
    × All IsPaid ys
rewards-IsPaid_example =
    rewards-IsPaid toy 8 (omega arith) bought 5 bought-opens (toy-HasWords stream.seed) refl
      (omega arith, omega arith)

abbrev sold : Receipt
sold =
    receipt bought (pos 100) 5 0 2
      (record { numbers = numbers; lucky = pos 4; prize = pos 1300; hits = 3 }) none

verify-IsIssued_example : ((v : Verified) × (verify toy 8 sold ≡ ok v)) ↔ IsIssued toy 8 sold
verify-IsIssued_example = verify-IsIssued toy 8 sold

-- A membership of another tier is not settled.
other_tier : settled_beans (membership (codes "pro") (pos 30)) ≡ err bad_reward
unfolding settled_beans
other_tier = refl

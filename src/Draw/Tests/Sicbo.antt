-- ===== src/Draw/Tests/Sicbo.antt =====
-- draw-games/verifier/src/{proof,sicbo}.rs: examples of the theorems, and runs.
use bluffking.Prelude.{◌/◌, ◌≡◌, refl, ◌↔◌, ◌⊎◌, true, false, not, [], ◌∷◌, pos, arith, all, take}
use bluffking.Draw.{err, ok, codes, not_committed, stake_out_of_range}
use bluffking.Draw.Proof.{
  Reveal, Entropy, entropy, commit, known_game, shared_game, sha256_fields, seed_bytes, framed,
  to_be_bytes, from_be_bytes, client_bytes, outcome_stream, stream_block, word_at, refill, word,
  accept, below,
}
use bluffking.Draw.Proof.Binding.{Collision, entropy-Collision}
use bluffking.Draw.Proof.Uniform.{drawn, below-uniform}
use bluffking.Draw.Sicbo.{
  small, big, Dice, is_triple, wins, roll, three_dice, draw_proof, payout_proof, check_payout, draw,
  verify,
}
use bluffking.Draw.Sicbo.Rules.{IsRolled, wins-exclusive}
use bluffking.Draw.Sicbo.Rolls.{draw-IsRolled}
use bluffking.Draw.Sicbo.Verify.{IsPublished, verify-IsPublished}
use bluffking.Draw.Tests.Toy.{
  revealed, seed, digits, toy, toy-IsDocumented, toy-HasWords, seed_text,
}

abbrev room : Reveal
room = revealed (codes "sicbo-room") (codes "7") []

abbrev solo : Reveal
solo = revealed (codes "sicbo") (codes "7") seed_text

abbrev room_stream : Entropy
room_stream = outcome_stream toy (codes "sicbo-room") (codes "7") seed []

abbrev solo_stream : Entropy
solo_stream = outcome_stream toy (codes "sicbo") (codes "7") seed seed

room-opens : entropy toy room ≡ ok room_stream
unfolding entropy commit known_game seed_bytes all client_bytes shared_game sha256_fields framed
    to_be_bytes
room-opens = refl

solo-opens : entropy toy solo ≡ ok solo_stream
unfolding entropy commit known_game seed_bytes all client_bytes shared_game sha256_fields framed
    to_be_bytes
solo-opens = refl

-- A wrong seed is refused.
wrong_seed : entropy toy (record room { server_seed = 98 ∷ digits 97 63 }) ≡ err not_committed
unfolding entropy commit known_game seed_bytes all sha256_fields framed to_be_bytes
wrong_seed = refl

entropy-Collision_example : Collision toy ⊎ (solo_stream ≡ solo_stream)
entropy-Collision_example =
    entropy-Collision toy toy-IsDocumented solo solo solo-opens solo-opens refl refl

below-uniform_example : drawn toy 6 3 18446744073709551616 ≡ 18446744073709551616 / 6
below-uniform_example = below-uniform toy 6 3 (omega arith) (omega arith)

abbrev rolled : Dice
rolled = record { first = 1; second = 2; third = 3 }

wins-exclusive_example :
    ((is_triple rolled ≡ false) → (wins rolled big ≡ not (wins rolled small)))
    × ((is_triple rolled ≡ true) → (wins rolled small ≡ false) × (wins rolled big ≡ false))
wins-exclusive_example =
    wins-exclusive rolled
      (omega arith, omega arith, omega arith, omega arith, omega arith, omega arith)

draw-IsRolled_example : (d : Dice) × (draw toy 8 room ≡ ok d) × IsRolled d
draw-IsRolled_example =
    draw-IsRolled toy 8 (omega arith) room room-opens (toy-HasWords room_stream.seed) refl

verify-IsPublished_example :
    (verify toy 8 (draw_proof room rolled) ≡ ok (draw_proof room rolled)) ↔ (
      (draw_proof room rolled ≡ draw_proof room rolled)
      × (d : Dice) × (draw toy 8 room ≡ ok d)
      × IsPublished (draw_proof room rolled) d)
verify-IsPublished_example =
    verify-IsPublished toy 8 (draw_proof room rolled) (draw_proof room rolled)

-- The dice of the room's reveal, and a stake that is refused.
room-draw : draw toy 8 room ≡ ok rolled
unfolding draw three_dice roll below accept word refill stream_block word_at from_be_bytes take
    entropy commit known_game seed_bytes all client_bytes shared_game sha256_fields framed
    to_be_bytes outcome_stream
room-draw = refl

-- A stake of nine is outside the range of a room.
low_stake : verify toy 8 (payout_proof room rolled small (pos 9)) ≡ err stake_out_of_range
unfolding verify check_payout
low_stake = rw room-draw refl

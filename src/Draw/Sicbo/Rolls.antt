-- ===== src/Draw/Sicbo/Rolls.antt =====
-- draw-games/verifier/src/sicbo.rs: the dice that an opened reveal gives.
use bluffking.Prelude.{
  ℕ, ◌+◌, ◌≤◌, ◌<◌, ◌≡◌, refl, sym, subst, inl, inr, true, not, ◌&&◌, ◌||◌, List, [], arith, ◌==◌,
  Bool-cases, length,
}
use bluffking.Draw.{ok, ◌>>◌, guard, >>-eq-ok, room_client_seed, same, codes}
use bluffking.Draw.Proof.{Crates, Reveal, Entropy, client_bytes, shared_game, entropy}
use bluffking.Draw.Proof.Below.{IsAligned, HasWords, below-Drawn, entropy-start}
use bluffking.Draw.Proof.Binding.{entropy-ok}
use bluffking.Draw.Sicbo.{Dice, roll, three_dice, draw}
use bluffking.Draw.Sicbo.Rules.{IsRolled}

-- A room's reveal that opens has no client seed.
room-no_client :
    (crates : Crates) (game client_seed : List ℕ) {bytes : List ℕ}
    → client_bytes crates game client_seed ≡ ok bytes
    → same game (codes "sicbo-room") ≡ true
    → (length client_seed == 0) ≡ true
unfolding client_bytes shared_game
room-no_client crates game client_seed {bytes} e room =
    let checked : (guard (length client_seed == 0) room_client_seed >> ok []) ≡ ok bytes =
      rw room at e in
    (>>-eq-ok (length client_seed == 0) room_client_seed (ok []) checked).0

module _ (crates : Crates) (fuel : ℕ) (enough : 8 ≤ fuel) where
  -- One die, with the stream after it.
  roll-range :
      (e : Entropy)
      → IsAligned e
      → HasWords crates e.seed
      → e.counter < 18446744073709551615
      → (n : ℕ) × (e' : Entropy) × (roll crates fuel e ≡ ok (n, e'))
        × (1 ≤ n)
        × (n ≤ 6)
        × IsAligned e'
        × HasWords crates e'.seed
        × (e'.counter ≤ e.counter + 1)
  unfolding roll
  roll-range e aligned words room =
      let (v, e', drawn, low, aligned', kept, blocks) =
        below-Drawn crates fuel e 6 enough aligned words room (omega arith) (omega arith) in
      (
        v + 1,
        e',
        rw drawn refl,
        omega arith,
        omega arith,
        aligned',
        subst (HasWords crates) (sym kept) words,
        blocks,
      )

  three_dice-IsRolled :
      (e : Entropy)
      → IsAligned e
      → HasWords crates e.seed
      → e.counter < 1000
      → (d : Dice) × (three_dice crates fuel e ≡ ok d) × IsRolled d
  unfolding three_dice
  three_dice-IsRolled e aligned words room =
      let (a, e1, da, la, ha, aligned1, words1, b1) = roll-range e aligned words (omega arith) in
      let (b, e2, db, lb, hb, aligned2, words2, b2) = roll-range e1 aligned1 words1 (omega arith) in
      let (c, e3, dc, lc, hc, _, _, _) = roll-range e2 aligned2 words2 (omega arith) in
      (
        record { first = a; second = b; third = c },
        rw da (rw db (rw dc refl)),
        (la, ha, lb, hb, lc, hc),
      )

  -- An opened reveal of a dice game gives three dice, each of one to six spots, when every block of
  -- its stream has a word that is not among the first 16384 values.
  pub draw-IsRolled :
      (r : Reveal) {e : Entropy}
      → entropy crates r ≡ ok e
      → HasWords crates e.seed
      → (same r.commitment.game (codes "sicbo") || same r.commitment.game (codes "sicbo-room"))
        ≡ true
      → (d : Dice) × (draw crates fuel r ≡ ok d) × IsRolled d
  unfolding draw
  draw-IsRolled r {e} opened words game =
      let (c, server, client, _, _, _, own, stream) = entropy-ok crates r opened in
      let is_room = same r.commitment.game (codes "sicbo-room") in
      let no_client : not (is_room && not (length r.client_seed == 0)) ≡ true =
        elim (Bool-cases is_room) [
          | inl room ↦
              rw room (rw (room-no_client crates r.commitment.game r.client_seed own room) refl)
          | inr other ↦ rw other refl
        ] in
      let (aligned, fresh) = entropy-start crates r opened in
      let (d, done, rolled) = three_dice-IsRolled e aligned words (omega arith) in
      (d, rw game (rw no_client (rw opened done)), rolled)

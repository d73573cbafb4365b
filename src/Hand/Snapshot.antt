-- ===== src/Hand/Snapshot.antt =====
-- engine/src/game/mod.rs: the part of `snapshot` that can fail. It reads the actor of the round, and
-- the pots of the hand as `merged_side_pots` in engine/src/game/pots.rs gives them, which panics on a
-- stack above its start.
use bluffking.Prelude.{
  ℕ, ◌≡◌, refl, inl, inr, Bool, true, ◌||◌, Option, none, some, List, [], ◌∷◌, map, arith, ltb,
  if◌then◌else◌, Bool-cases, Option-cases, length, get_elem?, All, get-bound,
}
use bluffking.Action.{Result, panicked, ok, ok-injective}
use bluffking.Round.State.{BettingRound, is_empty, empty}
use bluffking.Round.Open.{all_in_if_broke, seated, new}
use bluffking.Round.Settle.{HasTurn}
use bluffking.Round.Opening.{opened-HasTurn}
use bluffking.Round.SidePots.{SidePot}
use bluffking.Settle.HandPots.{hand_side_pots}
use bluffking.Settle.HandTotal.{HasStack, hand_side_pots-eq}
use bluffking.Hand.State.{Hand}

-- `merged_side_pots`
abbrev pub merged_side_pots : Hand → Option (List SidePot)
merged_side_pots h = hand_side_pots h.posted_big_blind_ante h.seats

-- The index of the actor, which `current_player` reads, is in range.
unfoldable pub actor_read : Hand → Bool
actor_read h = elim h.betting_round [
  | none ↦ true
  | some r ↦ r.done || (is_empty r.players || ltb r.current (length r.players))
]

-- `snapshot`: the hand, if its actor and its pots can be read.
unfoldable pub snapshot : Hand → Result Hand
snapshot h = elim (merged_side_pots h) [
  | none ↦ panicked
  | some pots ↦ if actor_read h then ok h else panicked
]

pub snapshot-same : (h h' : Hand) → snapshot h ≡ ok h' → h ≡ h'
unfolding snapshot
snapshot-same h h' e = elim (Option-cases (merged_side_pots h)) [
  | inl panics ↦ absurd (ground (arith, simp (snapshot, panics) at e))
  | inr (pots, reads) ↦ elim (Bool-cases (actor_read h)) [
    | inl known ↦ ok-injective (simp (snapshot, reads, known) at e)
    | inr unknown ↦ absurd (ground (arith, simp (snapshot, reads, unknown) at e))
  ]
]

pub snapshot-total : (h : Hand) → All HasStack h.seats → actor_read h ≡ true → snapshot h ≡ ok h
unfolding snapshot
snapshot-total h have known =
    simp (snapshot, known, hand_side_pots-eq h.posted_big_blind_ante h.seats have) refl

pub actor_read-none : (h : Hand) → h.betting_round ≡ none → actor_read h ≡ true
unfolding actor_read
actor_read-none h e = simp (actor_read, e) refl

-- A round in which it is a player's turn, as the round of a new street is.
pub actor_read-HasTurn :
    (h : Hand) (r : BettingRound) → h.betting_round ≡ some r → HasTurn r → actor_read h ≡ true
unfolding actor_read
actor_read-HasTurn h r there turn = elim (Bool-cases r.done) [
  | inl over ↦ simp (actor_read, there, over) refl
  | inr still ↦ elim (Option-cases (get_elem? r.players r.current)) [
    | inl missing ↦ absurd (ground (arith, simp still at turn, missing))
    | inr (p, found) ↦
        let bound = get-bound r.players r.current p found in
        simp (actor_read, there) (ground (arith, still, bound))
  ]
]

pub new-HasTurn :
    (players : List (ℕ × ℕ)) (first_actor bet big_blind : ℕ)
    → HasTurn (new players first_actor bet big_blind)
unfolding new empty
new-HasTurn [] first_actor bet big_blind = refl
new-HasTurn (p ∷ ps) first_actor bet big_blind =
    opened-HasTurn (map all_in_if_broke (seated (p ∷ ps))) first_actor bet big_blind 0

-- ===== src/Settle/Seat.antt =====
-- engine/src/game/mod.rs: the seats of a hand; engine/src/game/pots.rs: their order from the button.
use bluffking.Prelude.{
  not, ℕ, zero, suc, ◌+◌, ◌%◌, Bool, true, false, Option, none, some, List, ◌==◌, if◌then◌else◌,
  length, get_elem?,
}
use bluffking.Card.{HoleCards}

pub data HoleSlot : Type 0 where
  empty_slot : HoleSlot
  plain : HoleCards → HoleSlot
  opaque : HoleSlot
  revealed : HoleCards → HoleSlot

unfoldable pub plaintext : HoleSlot → Option HoleCards
plaintext empty_slot = none
plaintext (plain h) = some h
plaintext opaque = none
plaintext (revealed h) = some h

unfoldable pub is_opaque : HoleSlot → Bool
is_opaque opaque = true
is_opaque _ = false

pub record HandSeat : Type 0 where
  pub player_id : ℕ
  pub starting_stack : ℕ
  pub stack : ℕ
  pub hole : HoleSlot
  pub folded : Bool
  pub all_in : Bool
  pub seat : ℕ

unfoldable pub hole_cards : HandSeat → Option HoleCards
unfolding plaintext
hole_cards s = plaintext s.hole

-- `!seat.folded`
abbrev pub is_in : HandSeat → Bool
is_in s = not s.folded

-- The inserts of the loop: seat `first + offset` of `n` for each offset from `offset` on.
unfoldable pub order_loop : List HandSeat → ℕ → ℕ → ℕ → ℕ → (ℕ → Option ℕ) → ℕ → Option ℕ
order_loop seats n first offset zero order = order
order_loop seats n first offset (suc k) order = elim (get_elem? seats ((first + offset) % n)) [
  | none ↦ order
  | some s ↦
      order_loop seats n first (offset + 1) k
        (λ pid. if pid == s.player_id then some offset else order pid)
]

-- The map from a player to the seat order from the left of the button, for a dealer at an index.
unfoldable pub button_relative_order : List HandSeat → ℕ → ℕ → Option ℕ
unfolding order_loop
button_relative_order seats dealer_idx =
    let n = length seats in
    if n == 0
    then (λ pid. none)
    else order_loop seats n ((dealer_idx % n + 1) % n) 0 n (λ pid. none)

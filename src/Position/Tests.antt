-- ===== src/Position/Tests.antt =====
-- engine/src/player.rs: positions at a table with gaps between its seats.
use bluffking.Prelude.{ℕ, ◌≡◌, refl, List, [], ◌∷◌, arith, position, any}
use bluffking.Position.{hijack, cutoff, ring_label, label, distance, for_seat}
use bluffking.Position.Distinct.{for_seat-injective}

abbrev six_seats : List ℕ
six_seats = 0 ∷ 1 ∷ 3 ∷ 4 ∷ 6 ∷ 8 ∷ []

-- With the dealer in seat 3 of six, seat 0 is the hijack and seat 1 the cutoff.
positions : (for_seat 0 3 six_seats ≡ hijack) × (for_seat 1 3 six_seats ≡ cutoff)
unfolding for_seat label ring_label distance position
positions = (refl, refl)

abbrev seat : ℕ
seat = 6

for_seat-injective_example : seat ≡ seat
unfolding any
for_seat-injective_example =
    for_seat-injective seat seat 3 six_seats (omega arith) (omega arith) refl refl refl refl

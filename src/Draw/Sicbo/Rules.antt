-- ===== src/Draw/Sicbo/Rules.antt =====
-- draw-games/verifier/src/sicbo.rs: the payout rules.
use bluffking.Prelude.{
  ℕ, ◌+◌, ◌-◌, ◌≤◌, ◌≡◌, sym, ◌∙◌, inl, inr, Bool, true, false, not, arith, leb, Bool-cases,
}
use bluffking.Draw.Sicbo.{Side, small, big, Dice, on_die, is_triple, total, wins}

-- The dice seen from below: a die's opposite faces add up to seven.
abbrev pub mirror : Dice → Dice
mirror d = record { first = 7 - d.first; second = 7 - d.second; third = 7 - d.third }

abbrev pub IsRolled : Dice → Type 0
IsRolled d =
    (1 ≤ d.first) × (d.first ≤ 6) × (1 ≤ d.second) × (d.second ≤ 6) × (1 ≤ d.third) × (d.third ≤ 6)

abbrev pub spots : Dice → ℕ
spots d = d.first + d.second + d.third

on_die_of_range : (n : ℕ) → 1 ≤ n → n ≤ 6 → on_die n ≡ true
on_die_of_range n lo hi = ground arith

-- Dice that are not all alike show from four to seventeen spots.
spots-range : (d : Dice) → IsRolled d → is_triple d ≡ false → (4 ≤ spots d) × (spots d ≤ 17)
spots-range d h t = (ground arith, ground arith)

total-spots : (d : Dice) → IsRolled d → total d ≡ spots d
total-spots d h = omega arith

abbrev by_spots : ℕ → Side → Bool
by_spots n small = leb n 10
by_spots n big = leb 11 n

wins-spots :
    (d : Dice) (side : Side)
    → IsRolled d
    → is_triple d ≡ false
    → wins d side ≡ by_spots (spots d) side
unfolding wins
wins-spots d side (a, b, c, e, f, g) t =
    let (low, high) = spots-range d (a, b, c, e, f, g) t in
    let sum : total d ≡ spots d = total-spots d (a, b, c, e, f, g) in
    rw (on_die_of_range d.first a b, on_die_of_range d.second c e, on_die_of_range d.third f g, t)
      (elim side [ small ↦ ground (arith, sum) | big ↦ ground (arith, sum) ])

wins-triple : (d : Dice) (side : Side) → is_triple d ≡ true → wins d side ≡ false
unfolding wins
wins-triple d side t = ground arith

-- Of three dice that are not all alike exactly one side wins; of three alike neither does.
pub wins-exclusive :
    (d : Dice)
    → IsRolled d
    → ((is_triple d ≡ false) → (wins d big ≡ not (wins d small)))
      × ((is_triple d ≡ true) → (wins d small ≡ false) × (wins d big ≡ false))
wins-exclusive d h = (
  λ t. rw (wins-spots d big h t, wins-spots d small h t) (ground arith),
  λ t. (wins-triple d small t, wins-triple d big t),
)

-- The dice for which small wins and those for which big wins are the opposite faces of each other.
pub wins-mirror : (d : Dice) → IsRolled d → wins (mirror d) small ≡ wins d big
wins-mirror d h =
    let h' : IsRolled (mirror d) =
      (omega arith, omega arith, omega arith, omega arith, omega arith, omega arith) in
    let alike : is_triple (mirror d) ≡ is_triple d = ground arith in
    elim (Bool-cases (is_triple d)) [
      | inl t ↦ wins-triple (mirror d) small (alike ∙ t) ∙ sym (wins-triple d big t)
      | inr t ↦ rw (wins-spots (mirror d) small h' (alike ∙ t), wins-spots d big h t) (ground arith)
    ]

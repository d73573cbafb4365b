-- ===== src/Settle/Fair.antt =====
-- engine/src/game/pots.rs: the recipients of `odd_chip_recipients`.
use bluffking.Prelude.{
  ℕ, zero, suc, ◌+◌, ◌/◌, ◌%◌, ◌≤◌, ◌<◌, ◌≡◌, subst, ◌∙◌, ◌⊎◌, inl, inr, Bool, true, false, Option,
  none, some, refl, ltb, List, [], ◌∷◌, map, arith, ◌==◌, Bool-cases, length, All, IsSorted,
  sort_by-IsSorted, take, sort_by, contains, contains-sort_by, u32_mod,
}
use bluffking.Settle.Split.{PotWinner, seat_order, key_leb, odd_chip_recipients, paid, split_pot}
use bluffking.Settle.OddChips.{paid-eq, recipient-rem}

module _ (order : ℕ → Option ℕ) where
  key_leb_total : (x y : ℕ) → key_leb order x y ≡ false → key_leb order y x ≡ true
  unfolding key_leb
  key_leb_total x y e = ground arith

  key_leb_trans :
      (x y z : ℕ) → key_leb order x y ≡ true → key_leb order y z ≡ true → key_leb order x z ≡ true
  unfolding key_leb
  key_leb_trans x y z e f = ground arith

All-contains : (P : ℕ → Type 0) (xs : List ℕ) (y : ℕ) → All P xs → contains y xs ≡ true → P y
unfolding contains
All-contains P [] y h e = cc
All-contains P (x ∷ xs) y h e = elim (Bool-cases (y == x)) [
  | inl same ↦ subst P (ground (arith, same)) h.0
  | inr differ ↦ All-contains P xs y h.1 (ground (arith, differ))
]

-- What a sorted list begins with stands before the rest.
sorted-take :
    (le : ℕ → ℕ → Bool) (k : ℕ) (xs : List ℕ) (x y : ℕ)
    → IsSorted le xs
    → contains x (take k xs) ≡ true
    → contains y xs ≡ true
    → contains y (take k xs) ≡ false
    → le x y ≡ true
unfolding contains take
sorted-take le zero xs x y s hx hy out = cc
sorted-take le (suc k) [] x y s hx hy out = cc
sorted-take le (suc k) (z ∷ zs) x y s hx hy out = elim (Bool-cases (x == z)) [
  | inl same ↦
      subst (λ w. le w y ≡ true) (ground (arith, same))
        (All-contains (λ w. le z w ≡ true) zs y s.0 (ground (arith, hy, out)))
  | inr differ ↦
      sorted-take le k zs x y s.1 (ground (arith, hx, differ)) (ground (arith, hy, out))
        (ground (arith, out))
]

All-paid :
    (P : PotWinner → Type 0) (f : ℕ → PotWinner) (ids : List ℕ)
    → ((x : ℕ) → contains x ids ≡ true → P (f x))
    → All P (map f ids)
unfolding contains
All-paid P f [] h = tt
All-paid P f (x ∷ ids) h = (h x (ground arith), All-paid P f ids (λ y e. h y (ground (arith, e))))

recipients-first :
    (order : ℕ → Option ℕ) (ids : List ℕ) (rem x y : ℕ)
    → contains x (odd_chip_recipients ids rem order) ≡ true
    → contains y ids ≡ true
    → contains y (odd_chip_recipients ids rem order) ≡ false
    → key_leb order x y ≡ true
unfolding odd_chip_recipients contains
recipients-first order ids zero x y hx hy out = cc
recipients-first order ids (suc rem) x y hx hy out =
    let some_rem : (suc rem == 0) ≡ false = ground arith in
    let sorted = sort_by (key_leb order) ids in
    sorted-take (key_leb order) (suc rem) sorted x y
      (sort_by-IsSorted (key_leb order) (key_leb_total order) (key_leb_trans order) ids)
      (rw some_rem at hx) (contains-sort_by (key_leb order) y ids ∙ hy) (rw some_rem at out)

-- The place of a player to the left of the button; a player without one comes last.
abbrev pub place : Option ℕ → ℕ
place (some n) = n
place none = 18446744073709551615

-- `x` sits before `y` to the left of the button, or at the same place with an id that is not above.
abbrev pub IsEarlier : (ℕ → Option ℕ) → ℕ → ℕ → Type 0
IsEarlier order x y =
    (place (order x) < place (order y)) ⊎ ((place (order x) ≡ place (order y)) × (x ≤ y))

place-seat_order : (o : Option ℕ) → seat_order o ≡ place o
place-seat_order none = refl
place-seat_order (some n) = refl

key_leb-IsEarlier :
    (order : ℕ → Option ℕ) (x y : ℕ) → key_leb order x y ≡ true → IsEarlier order x y
unfolding key_leb
key_leb-IsEarlier order x y e =
    let at_x = place-seat_order (order x) in
    let at_y = place-seat_order (order y) in
    elim (Bool-cases (ltb (seat_order (order x)) (seat_order (order y)))) [
      | inl before ↦ inl (ground (arith, before, at_x, at_y))
      | inr behind ↦ inr (ground (arith, e, behind, at_x, at_y), ground (arith, e, behind))
    ]

-- `w` gets no more than `v`, or one chip more and comes before `v` from the button.
abbrev pub IsFair : (ℕ → Option ℕ) → PotWinner → PotWinner → Type 0
IsFair order w v =
    (w.amount_won ≤ v.amount_won)
    ⊎ ((w.amount_won ≡ v.amount_won + 1) × IsEarlier order w.player_id v.player_id)

shares-IsFair :
    (ids : List ℕ) (amount : ℕ) (order : ℕ → Option ℕ) (x y : ℕ)
    → 0 < length ids
    → amount < u32_mod
    → contains y ids ≡ true
    → IsFair order
        (paid (amount / length ids) (odd_chip_recipients ids (amount % length ids) order) x)
        (paid (amount / length ids) (odd_chip_recipients ids (amount % length ids) order) y)
unfolding paid
shares-IsFair ids amount order x y p h hy =
    let n = length ids in
    let odd = odd_chip_recipients ids (amount % n) order in
    let share_x = paid-eq order amount n odd x p h (recipient-rem order ids (amount % n) x) in
    let share_y = paid-eq order amount n odd y p h (recipient-rem order ids (amount % n) y) in
    elim (Bool-cases (contains x odd)) [
      | inr ex ↦ inl (ground (arith, share_x, share_y, ex))
      | inl ex ↦ elim (Bool-cases (contains y odd)) [
        | inl ey ↦ inl (ground (arith, share_x, share_y, ex, ey))
        | inr ey ↦ inr (
          ground (arith, share_x, share_y, ex, ey),
          key_leb-IsEarlier order x y (recipients-first order ids (amount % n) x y ex hy ey),
        )
      ]
    ]

-- In the split of a pot among somebody, any two shares are equal or differ by one chip, and the
-- larger one goes to the player who comes first to the left of the button, or who has the lower id at
-- the same place. A player without a place comes last.
pub split_pot-IsFair :
    (ids : List ℕ) (amount : ℕ) (order : ℕ → Option ℕ)
    → 0 < length ids
    → amount < u32_mod
    → All (λ w. All (IsFair order w) (split_pot ids amount order)) (split_pot ids amount order)
unfolding split_pot
split_pot-IsFair ids amount order p h =
    let n = length ids in
    let odd = odd_chip_recipients ids (amount % n) order in
    let pay = paid (amount / n) odd in
    All-paid (λ w. All (IsFair order w) (map pay ids)) pay ids
      (λ x hx.
        All-paid (IsFair order (pay x)) pay ids (λ y hy. shares-IsFair ids amount order x y p h hy))

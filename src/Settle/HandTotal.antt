-- ===== src/Settle/HandTotal.antt =====
-- engine/src/game/pots.rs: the total of `hand_side_pots`.
use mathlib.Core.Option
use bluffking.Prelude.{
  ℕ, ◌+◌, ◌-◌, ◌≤◌, ◌<◌, ◌≡◌, refl, ◌∙◌, Bool, false, Option, none, some, List, [], ◌∷◌, ◌++◌, map,
  arith, ltb, if-elim, All, filter, count, sum_by, sort, dedup, sort-IsAscending, sort-Occurs,
  dedup-IsAscending, dedup-Occurs, u32_mod,
}
use bluffking.Round.SidePots.{is_nil}
use bluffking.Round.SidePots.Sum.{capped-zero, Covered-levels, pot_amounts-append}
use bluffking.Settle.Seat.{HandSeat, is_in}
use bluffking.Settle.HandPots.{
  ante_of, contribution, contributed, hand_layers, ante_pot, pots_of, hand_side_pots,
}
use bluffking.Settle.Totals.{total_amount}
use bluffking.Settle.HandLayers.{
  canonical-amount, hand_layers-amount, positive-IsAscending, Covered-positive,
}

abbrev pub ante_amount : Option (ℕ × ℕ) → ℕ
ante_amount none = 0
ante_amount (some (payer, amount)) = amount

ante_pot-amount :
    (ante : Option (ℕ × ℕ)) (eligible : List (ℕ × ℕ))
    → total_amount (ante_pot ante eligible) ≡ ante_amount ante
unfolding ante_pot sum_by
ante_pot-amount none eligible = refl
ante_pot-amount (some (payer, amount)) eligible = omega arith

pub pots_of-amount :
    (ante : Option (ℕ × ℕ)) (all_seats eligible : List (ℕ × ℕ))
    → is_nil (map (λ x. x.0) eligible) ≡ false
    → ante_amount ante + sum_by (λ x. x.1) all_seats < u32_mod
    → total_amount (pots_of ante all_seats eligible)
      ≡ ante_amount ante + sum_by (λ x. x.1) all_seats
unfolding pots_of
pots_of-amount ante all_seats eligible live bound =
    let levels = dedup (sort (map (λ x. x.1) all_seats)) in
    let layers = hand_layers all_seats eligible 0 (filter (ltb 0) levels) in
    let sum =
      hand_layers-amount all_seats eligible 0 (filter (ltb 0) levels)
        (positive-IsAscending 0 levels (dedup-IsAscending _ (sort-IsAscending _)))
        (Covered-positive levels all_seats
          (Covered-levels levels all_seats (λ a o. dedup-Occurs a _ (sort-Occurs a _ o))))
        (omega arith) in
    let total = pot_amounts-append (ante_pot ante eligible) layers in
    let all_of : total_amount (ante_pot ante eligible ++ layers)
        ≡ ante_amount ante + sum_by (λ x. x.1) all_seats =
      omega (arith, sum, total, capped-zero all_seats, ante_pot-amount ante eligible) in
    rw live (canonical-amount (ante_pot ante eligible ++ layers) (omega (arith, all_of)) ∙ all_of)

-- The chips of a seat that are in the middle.
abbrev pub in_pot : HandSeat → ℕ
in_pot s = s.starting_stack - s.stack

-- A seat with its contribution apart from the ante.
abbrev pub entry : Option (ℕ × ℕ) → HandSeat → ℕ × ℕ
entry ante s = (s.player_id, in_pot s - ante_of ante s.player_id)

abbrev pub HasStack : HandSeat → Type 0
HasStack s = s.stack ≤ s.starting_stack

contribution-eq :
    (ante : Option (ℕ × ℕ)) (s : HandSeat)
    → HasStack s
    → contribution ante s ≡ some (in_pot s - ante_of ante s.player_id)
unfolding contribution
contribution-eq ante s h = ground arith

pub contributed-eq :
    (ante : Option (ℕ × ℕ)) (seats : List HandSeat)
    → All HasStack seats
    → contributed ante seats ≡ some (map (entry ante) seats)
unfolding contributed Option.bind
contributed-eq ante [] h = refl
contributed-eq ante (s ∷ seats) h =
    rw (contribution-eq ante s h.0) (rw (contributed-eq ante seats h.1) refl)

pub All-filter {ℓ κ} :
    {A : Type ℓ} (P : A → Type κ) (p : A → Bool) (xs : List A) → All P xs → All P (filter p xs)
unfolding filter
All-filter P p [] h = tt
All-filter P p (x ∷ xs) h =
    if-elim (All P) (p x) (λ e. (h.0, All-filter P p xs h.1)) (λ e. All-filter P p xs h.1)

pub entries-live :
    (ante : Option (ℕ × ℕ)) (seats : List HandSeat)
    → 0 < count is_in seats
    → is_nil (map (λ x. x.0) (map (entry ante) (filter is_in seats))) ≡ false
unfolding is_nil filter count
entries-live ante [] h = absurd (omega arith)
entries-live ante (s ∷ seats) h = ground (arith, entries-live ante seats)

-- The ante is part of what its payer, one of the seats, put in.
abbrev pub AnteIsPaid : Option (ℕ × ℕ) → List HandSeat → Type 0
AnteIsPaid ante seats =
    (sum_by (λ s. ante_of ante s.player_id) seats ≡ ante_amount ante)
    × All (λ s. ante_of ante s.player_id ≤ in_pot s) seats

entries-sum :
    (ante : Option (ℕ × ℕ)) (seats : List HandSeat)
    → All (λ s. ante_of ante s.player_id ≤ in_pot s) seats
    → sum_by (λ s. ante_of ante s.player_id) seats + sum_by (λ x. x.1) (map (entry ante) seats)
      ≡ sum_by in_pot seats
unfolding sum_by
entries-sum ante [] h = refl
entries-sum ante (s ∷ seats) h = omega (arith, h.0, entries-sum ante seats h.1)

pub hand_side_pots-eq :
    (ante : Option (ℕ × ℕ)) (seats : List HandSeat)
    → All HasStack seats
    → hand_side_pots ante seats
      ≡ some (pots_of ante (map (entry ante) seats) (map (entry ante) (filter is_in seats)))
unfolding hand_side_pots Option.bind
hand_side_pots-eq ante seats h =
    rw (contributed-eq ante seats h)
      (rw (contributed-eq ante (filter is_in seats) (All-filter HasStack is_in seats h)) refl)

pub pots_of-in_pot :
    (ante : Option (ℕ × ℕ)) (seats : List HandSeat)
    → 0 < count is_in seats
    → AnteIsPaid ante seats
    → sum_by in_pot seats < u32_mod
    → total_amount (pots_of ante (map (entry ante) seats) (map (entry ante) (filter is_in seats)))
      ≡ sum_by in_pot seats
pots_of-in_pot ante seats live paid bound =
    let sum = entries-sum ante seats paid.1 in
    pots_of-amount ante (map (entry ante) seats) (map (entry ante) (filter is_in seats))
      (entries-live ante seats live) (omega (arith, sum, paid.0, bound))
    ∙ omega (arith, sum, paid.0)

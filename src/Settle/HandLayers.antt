-- ===== src/Settle/HandLayers.antt =====
-- engine/src/game/pots.rs: the layers of `hand_side_pots` and their joining.
use bluffking.Prelude.{
  ℕ, zero, suc, ◌+◌, ◌≤◌, ◌<◌, max, ◌≡◌, refl, subst, inl, inr, List, [], ◌∷◌, map, arith, ltb, leb,
  if-elim, filter, sum_by, sum32, sum, IsAscending, Occurs, sum32-eq, add32, u32_mod, add32-eq,
}
use bluffking.Round.SidePots.{SidePot}
use bluffking.Round.SidePots.Layer.{capped, capped-le, pot_amounts}
use bluffking.Round.SidePots.Sum.{Covered, Covered-next, capped-all, pot_amounts-append}
use bluffking.Settle.HandPots.{
  slice_of, claims, push_pot, hand_layer, hand_layers, same_claims, merge_into, canonical,
}
use bluffking.Settle.Totals.{total_amount}

-- Joining pots moves no chip.
merge_into-amount :
    (p : SidePot) (ps : List SidePot)
    → p.amount + total_amount ps < u32_mod
    → total_amount (merge_into p ps) ≡ p.amount + total_amount ps
unfolding merge_into sum_by
merge_into-amount p [] h = omega arith
merge_into-amount p (q ∷ ps) h =
    if-elim (λ qs. total_amount qs ≡ p.amount + (q.amount + total_amount ps)) (same_claims p q)
      (λ e.
        let sum = add32-eq p.amount q.amount (omega arith) in
        omega (
          arith,
          sum,
          merge_into-amount (record p { amount = add32 p.amount q.amount; cap = max p.cap q.cap })
              ps (omega (arith, sum)),
        ))
      (λ e. omega (arith, merge_into-amount q ps (omega arith)))

pub canonical-amount :
    (ps : List SidePot) → total_amount ps < u32_mod → total_amount (canonical ps) ≡ total_amount ps
unfolding canonical sum_by
canonical-amount [] h = refl
canonical-amount (p ∷ ps) h = merge_into-amount p ps h

abbrev pub slices : ℕ → ℕ → List (ℕ × ℕ) → ℕ
slices previous level xs = sum (map (λ x. slice_of previous level x.1) xs)

slices-capped :
    (previous level : ℕ) (xs : List (ℕ × ℕ))
    → previous ≤ level
    → capped previous xs + slices previous level xs ≡ capped level xs
unfolding slice_of sum sum_by
slices-capped previous level [] h = refl
slices-capped previous level ((id, c) ∷ xs) h = omega (arith, slices-capped previous level xs h)

push_pot-amount :
    (level amount : ℕ) (c : List ℕ × List ℕ) → pot_amounts (push_pot level amount c) ≡ amount
unfolding push_pot sum_by
push_pot-amount level amount (a, b) = ground arith

module _ (all_seats eligible : List (ℕ × ℕ)) where
  hand_layer-amount :
      (previous level : ℕ)
      → previous ≤ level
      → sum_by (λ x. x.1) all_seats < u32_mod
      → capped previous all_seats + pot_amounts (hand_layer all_seats eligible previous level)
        ≡ capped level all_seats
  unfolding hand_layer
  hand_layer-amount previous level h bound =
      let split = slices-capped previous level all_seats h in
      omega (
        arith,
        split,
        sum32-eq (map (λ x. slice_of previous level x.1) all_seats)
            (omega (arith, split, capped-le level all_seats)),
        push_pot-amount level (sum32 (map (λ x. slice_of previous level x.1) all_seats)) (
            claims (map (λ x. x.0) (filter (λ x. leb level x.1) eligible))
              (map (λ x. x.0) (filter (λ x. ltb previous x.1) all_seats))),
      )

  pub hand_layers-amount :
      (previous : ℕ) (levels : List ℕ)
      → IsAscending previous levels
      → Covered previous levels all_seats
      → sum_by (λ x. x.1) all_seats < u32_mod
      → capped previous all_seats + pot_amounts (hand_layers all_seats eligible previous levels)
        ≡ sum_by (λ x. x.1) all_seats
  unfolding hand_layers sum_by
  hand_layers-amount previous [] up c bound = omega (arith, capped-all previous all_seats c)
  hand_layers-amount previous (level ∷ levels) up c bound = omega (
    arith,
    pot_amounts-append (hand_layer all_seats eligible previous level)
        (hand_layers all_seats eligible level levels),
    hand_layer-amount previous level up.0 bound,
    hand_layers-amount level levels up.1 (Covered-next previous level levels all_seats up.0 c)
        bound,
  )

-- Only positive levels are kept.
pub positive-IsAscending :
    (low : ℕ) (xs : List ℕ) → IsAscending low xs → IsAscending low (filter (ltb 0) xs)
unfolding filter
positive-IsAscending low [] h = tt
positive-IsAscending low (x ∷ xs) h =
    if-elim (IsAscending low) (ltb 0 x) (λ e. (h.0, positive-IsAscending x xs h.1))
      (λ e.
        subst (λ l. IsAscending l (filter (ltb 0) xs)) (ground (arith, h.0))
          (positive-IsAscending x xs h.1))

positive-Occurs : (a : ℕ) (xs : List ℕ) → 0 < a → Occurs a xs → Occurs a (filter (ltb 0) xs)
unfolding filter
positive-Occurs a [] p h = h
positive-Occurs a (x ∷ xs) p (inl e) =
    if-elim (Occurs a) (ltb 0 x) (λ k. inl e) (λ k. absurd (ground (arith, e, p)))
positive-Occurs a (x ∷ xs) p (inr h) =
    if-elim (Occurs a) (ltb 0 x) (λ e. inr (positive-Occurs a xs p h))
      (λ e. positive-Occurs a xs p h)

pub Covered-positive :
    (levels : List ℕ) (xs : List (ℕ × ℕ))
    → Covered 0 levels xs
    → Covered 0 (filter (ltb 0) levels) xs
Covered-positive levels [] c = tt
Covered-positive levels ((id, zero) ∷ xs) (x, cs) =
    (inl (omega arith), Covered-positive levels xs cs)
Covered-positive levels ((id, suc n) ∷ xs) (inl h, cs) = absurd (omega (arith, h))
Covered-positive levels ((id, suc n) ∷ xs) (inr o, cs) =
    (inr (positive-Occurs (suc n) levels (omega arith) o), Covered-positive levels xs cs)

-- ===== src/Settle/HandPaid.antt =====
-- engine/src/game/pots.rs: the settlement of the pots of `hand_side_pots`.
use bluffking.Prelude.{
  ℕ, ◌+◌, ◌<◌, max, ◌≡◌, refl, sym, ap, subst, ◌∙◌, Bool, true, false, ◌&&◌, Option, none, some,
  List, [], ◌∷◌, ◌++◌, map, arith, ltb, leb, ◌==◌, if-elim, length, All, All-append, filter, count,
  sum_by, map-filter-IsNodup, sum32, IsNodup, add32, u32_mod,
}
use bluffking.Card.{HoleCards, BoardCards}
use bluffking.Eval.{Evaluator}
use bluffking.Round.SidePots.{SidePot, is_nil, ids_eq, ids_where, lone_refund}
use bluffking.Settle.Seat.{is_in, HandSeat}
use bluffking.Settle.HandPots.{
  slice_of, claims, push_pot, hand_layer, hand_layers, ante_pot, same_claims, merge_into, canonical,
  levels_of, pots_of, hand_side_pots,
}
use bluffking.Settle.HandTotal.{
  in_pot, entry, HasStack, AnteIsPaid, entries-live, pots_of-in_pot, hand_side_pots-eq,
}
use bluffking.Settle.Totals.{total_amount, total_awarded, IsPayable, is_nil-length}
use bluffking.Settle.Distribute.{distribute_pots}
use bluffking.Settle.Contested.{ids_of, distribute_pots-total_awarded}

-- Somebody has a claim, and nobody is named twice.
abbrev IsClaimed : List ℕ → List ℕ → Type 0
IsClaimed eligible refund_to =
    IsNodup eligible × IsNodup refund_to × (0 < length eligible + length refund_to)

abbrev PotIsClaimed : SidePot → Type 0
PotIsClaimed p = IsClaimed p.eligible p.refund_to

merge_into-IsClaimed :
    (p : SidePot) (ps : List SidePot)
    → PotIsClaimed p
    → All PotIsClaimed ps
    → All PotIsClaimed (merge_into p ps)
unfolding merge_into
merge_into-IsClaimed p [] h k = (h, tt)
merge_into-IsClaimed p (q ∷ ps) h k =
    if-elim (All PotIsClaimed) (same_claims p q)
      (λ e.
        merge_into-IsClaimed (record p { amount = add32 p.amount q.amount; cap = max p.cap q.cap })
          ps h k.1)
      (λ e. (h, merge_into-IsClaimed q ps k.0 k.1))

canonical-IsClaimed : (ps : List SidePot) → All PotIsClaimed ps → All PotIsClaimed (canonical ps)
unfolding canonical
canonical-IsClaimed [] h = tt
canonical-IsClaimed (p ∷ ps) h = merge_into-IsClaimed p ps h.0 h.1

lone_refund-IsNodup : (a b : List ℕ) → IsNodup a → IsNodup (lone_refund a b)
unfolding lone_refund
lone_refund-IsNodup a b d = if-elim IsNodup (length a == 1 && ids_eq b a) (λ e. d) (λ e. tt)

claims-IsClaimed :
    (a b : List ℕ)
    → IsNodup a
    → IsNodup b
    → is_nil b ≡ false
    → IsClaimed (claims a b).0 (claims a b).1
unfolding claims
claims-IsClaimed a b da db e =
    if-elim (λ (c : List ℕ × List ℕ). IsClaimed c.0 c.1) (is_nil a)
      (λ k. (tt, db, omega (arith, is_nil-length b e)))
      (λ k. (da, lone_refund-IsNodup a b da, omega (arith, is_nil-length a k)))

slices-none :
    (previous level : ℕ) (xs : List (ℕ × ℕ))
    → is_nil (ids_where (ltb previous) xs) ≡ true
    → sum32 (map (λ x. slice_of previous level x.1) xs) ≡ 0
unfolding slice_of sum32 is_nil filter
slices-none previous level [] h = refl
slices-none previous level ((id, c) ∷ xs) h = ground (arith, slices-none previous level xs)

push_pot-IsClaimed :
    (level amount : ℕ) (c : List ℕ × List ℕ)
    → ((amount == 0) ≡ false → IsClaimed c.0 c.1)
    → All PotIsClaimed (push_pot level amount c)
unfolding push_pot
push_pot-IsClaimed level amount (a, b) h =
    if-elim (All PotIsClaimed) (amount == 0) (λ e. tt) (λ e. (h e, tt))

module _ (all_seats eligible : List (ℕ × ℕ)) (da : IsNodup (ids_of all_seats))
    (de : IsNodup (ids_of eligible)) where
  hand_layer-IsClaimed :
      (previous level : ℕ) → All PotIsClaimed (hand_layer all_seats eligible previous level)
  unfolding hand_layer
  hand_layer-IsClaimed previous level =
      let amount = sum32 (map (λ x. slice_of previous level x.1) all_seats) in
      let contributors = ids_where (ltb previous) all_seats in
      push_pot-IsClaimed level amount (claims (ids_where (leb level) eligible) contributors) (λ e.
        claims-IsClaimed (ids_where (leb level) eligible) contributors
          (map-filter-IsNodup (λ x. x.0) (λ x. leb level x.1) eligible de)
          (map-filter-IsNodup (λ x. x.0) (λ x. ltb previous x.1) all_seats da)
          (ground (arith, e, slices-none previous level all_seats)))

  hand_layers-IsClaimed :
      (previous : ℕ) (levels : List ℕ)
      → All PotIsClaimed (hand_layers all_seats eligible previous levels)
  unfolding hand_layers
  hand_layers-IsClaimed previous [] = tt
  hand_layers-IsClaimed previous (level ∷ levels) =
      All-append PotIsClaimed (hand_layer all_seats eligible previous level)
        (hand_layers all_seats eligible level levels) (hand_layer-IsClaimed previous level)
        (hand_layers-IsClaimed level levels)

  ante_pot-IsClaimed :
      (ante : Option (ℕ × ℕ))
      → is_nil (ids_of eligible) ≡ false
      → All PotIsClaimed (ante_pot ante eligible)
  unfolding ante_pot
  ante_pot-IsClaimed none live = tt
  ante_pot-IsClaimed (some (payer, amount)) live =
      ((de, tt, omega (arith, is_nil-length (ids_of eligible) live)), tt)

  pots_of-IsClaimed :
      (ante : Option (ℕ × ℕ))
      → is_nil (ids_of eligible) ≡ false
      → All PotIsClaimed (pots_of ante all_seats eligible)
  unfolding pots_of
  pots_of-IsClaimed ante live =
      let levels = levels_of all_seats in
      rw live (
        canonical-IsClaimed (ante_pot ante eligible ++ hand_layers all_seats eligible 0 levels) (
          All-append PotIsClaimed (ante_pot ante eligible) (hand_layers all_seats eligible 0 levels)
            (ante_pot-IsClaimed ante live) (hand_layers-IsClaimed 0 levels)))

claimed-IsPayable :
    (ps : List SidePot) → total_amount ps < u32_mod → All PotIsClaimed ps → All IsPayable ps
unfolding sum_by
claimed-IsPayable [] h k = tt
claimed-IsPayable (p ∷ ps) h k =
    let c = k.0 in ((omega (arith, h), c.0, c.1, c.2), claimed-IsPayable ps (omega (arith, h)) k.1)

abbrev pub seat_ids : List HandSeat → List ℕ
seat_ids = map (λ s. s.player_id)

ids_of-entries :
    (ante : Option (ℕ × ℕ)) (seats : List HandSeat)
    → ids_of (map (entry ante) seats) ≡ seat_ids seats
ids_of-entries ante [] = refl
ids_of-entries ante (s ∷ seats) = ap (λ ids. s.player_id ∷ ids) (ids_of-entries ante seats)

-- The pots of a hand can be paid, and a showdown pays out exactly what the seats put in, wherever
-- nobody's stack is above the starting stack, somebody is in, the ids are distinct and the ante is
-- part of its payer's chips.
pub distribute_pots-in_pot :
    (ev : Evaluator) (order : ℕ → Option ℕ) (board : BoardCards) (with_cards : List (ℕ × HoleCards))
    (forfeiters : ℕ → Bool) (ante : Option (ℕ × ℕ)) (seats : List HandSeat)
    → All HasStack seats
    → 0 < count is_in seats
    → AnteIsPaid ante seats
    → sum_by in_pot seats < u32_mod
    → IsNodup (seat_ids seats)
    → IsNodup (ids_of with_cards)
    → (pots : List SidePot) × (hand_side_pots ante seats ≡ some pots)
      × All IsPayable pots
      × (total_awarded (distribute_pots ev order board with_cards forfeiters pots)
          ≡ sum_by in_pot seats)
distribute_pots-in_pot ev order board with_cards forfeiters ante seats h live paid bound ds dc =
    let pots = pots_of ante (map (entry ante) seats) (map (entry ante) (filter is_in seats)) in
    let total = pots_of-in_pot ante seats live paid bound in
    let payable = claimed-IsPayable pots (omega (arith, total, bound)) (
      pots_of-IsClaimed (map (entry ante) seats) (map (entry ante) (filter is_in seats))
        (subst IsNodup (sym (ids_of-entries ante seats)) ds)
        (subst IsNodup (sym (ids_of-entries ante (filter is_in seats)))
          (map-filter-IsNodup (λ s. s.player_id) is_in seats ds))
        ante (entries-live ante seats live)) in
    (
      pots,
      hand_side_pots-eq ante seats h,
      payable,
      distribute_pots-total_awarded ev order board with_cards forfeiters pots dc payable ∙ total,
    )

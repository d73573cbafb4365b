-- ===== src/History/ShowOrder.antt =====
-- engine/src/game/pots.rs: the walk of `compute_show_order` around the table.
use native.Mathlib.Nat.{mod-lt, mod-eq_of_lt, mod-eq-sub-mod}
use bluffking.Prelude.{
  u32_mod, length-rotate, ℕ, zero, suc, ◌+◌, ◌-◌, ◌%◌, ◌≤◌, ◌<◌, ◌≡◌, refl, sym, ap, subst, ◌∙◌,
  inl, inr, Bool, false, Option, none, some, List, [], ◌∷◌, ◌++◌, map, arith, leb, ◌==◌, if-elim,
  Bool-cases, Option-cases, length, get_elem?, position, filter, count, drop, drop-get, rotate,
  take-all, length-drop, count-rotate, take, get-in_range, get-bound, position-get,
}
use bluffking.Settle.Seat.{HandSeat, is_in}
use bluffking.History.Facts.{recorded, last_aggressor-some}
use bluffking.History.LastRaise.{IsLastRaiser, last_aggressor-IsLastRaiser}
use bluffking.History.Start.{IsStart, start_index-IsStart}
use bluffking.History.{
  ActionRecord, last_aggressor, folded_at, first_in, walk, start_index, compute_show_order,
}

abbrev pub ids_of_seats : List HandSeat → List ℕ
ids_of_seats = map (λ s. s.player_id)

-- The seats that stand at `idx`, at the index after it around the table, and so on.
abbrev IsPath : List HandSeat → ℕ → List HandSeat → Type 0
IsPath seats idx [] = Unit {0}
IsPath seats idx (v ∷ vs) =
    (get_elem? seats idx ≡ some v) × IsPath seats ((idx + 1) % length seats) vs

nobody_in : (vs : List HandSeat) → count is_in vs ≡ 0 → ids_of_seats (filter is_in vs) ≡ []
unfolding count filter
nobody_in [] h = refl
nobody_in (v ∷ vs) h = ground (arith, nobody_in vs)

walk-IsPath :
    (seats : List HandSeat) (idx left : ℕ) (vs : List HandSeat)
    → IsPath seats idx vs
    → left ≡ count is_in vs
    → walk seats (length vs) idx left ≡ ids_of_seats (filter is_in vs)
unfolding walk count filter
walk-IsPath seats idx left [] path h = refl
walk-IsPath seats idx left (v ∷ vs) path h =
    let next = (idx + 1) % length seats in
    rw (path.0, walk)
      (elim (Bool-cases v.folded) [
        | inl out ↦ rw out (
            if-elim (λ ids. ids ≡ ids_of_seats (filter is_in vs)) (left == 0)
              (λ e. sym (nobody_in vs (ground (arith, h, out))))
              (λ e. walk-IsPath seats next left vs path.1 (ground (arith, h, out))))
        | inr stays ↦ rw stays (
            ap (λ ids. v.player_id ∷ ids)
              (if-elim (λ ids. ids ≡ ids_of_seats (filter is_in vs)) (left == 1)
                (λ e. sym (nobody_in vs (ground (arith, h, stays))))
                (λ e. walk-IsPath seats next (left - 1) vs path.1 (ground (arith, h, stays)))))
      ])

append_nil : (vs : List HandSeat) → vs ++ [] ≡ vs
append_nil [] = refl
append_nil (v ∷ vs) = ap (λ ws. v ∷ ws) (append_nil vs)

count-length : (p : HandSeat → Bool) (vs : List HandSeat) → count p vs ≤ length vs
unfolding count
count-length p [] = omega arith
count-length p (v ∷ vs) = ground (arith, count-length p vs)

module _ (seats : List HandSeat) where
  -- `m` seats from index `i` on, followed by a path from the index after them.
  stretch :
      (m i : ℕ) (ws : List HandSeat)
      → i + m ≤ length seats
      → 0 < length seats
      → IsPath seats ((i + m) % length seats) ws
      → IsPath seats (i % length seats) (take m (drop i seats) ++ ws)
  unfolding take
  stretch zero i ws h p w = subst (λ j. IsPath seats (j % length seats) ws) (omega arith) w
  stretch (suc m) i ws h p w =
      let (v, at_i) = get-in_range seats i (omega arith) in
      let rest =
        stretch m (i + 1) ws (omega arith) p
          (subst (λ j. IsPath seats (j % length seats) ws) (omega arith) w) in
      rw (drop-get i seats v at_i)
        (rw (mod-eq_of_lt {n = i} {m = length seats} (omega arith)) (at_i, rest))

  rotate-IsPath : (k : ℕ) → k < length seats → IsPath seats k (rotate k seats)
  rotate-IsPath k h =
      let n = length seats in
      let full : k + (n - k) ≡ n = omega (arith, h) in
      let none_left : n - n ≡ 0 = omega arith in
      let wrapped : 0 % n ≡ (k + (n - k)) % n = sym (
        ap (λ j. j % n) full
        ∙ mod-eq-sub-mod {n = n} {m = n} (omega arith)
        ∙ ap (λ j. j % n) none_left) in
      let beginning : IsPath seats (0 % n) (take k seats) =
        subst (IsPath seats (0 % n)) (append_nil (take k seats))
          (stretch k 0 [] (omega arith) (omega arith) tt) in
      let all_of =
        stretch (n - k) k (take k seats) (omega arith) (omega arith)
          (subst (λ j. IsPath seats j (take k seats)) wrapped beginning) in
      subst (λ vs. IsPath seats k (vs ++ take k seats))
        (take-all (n - k) (drop k seats) (omega (arith, length-drop k seats)))
        (subst (λ j. IsPath seats j (take (n - k) (drop k seats) ++ take k seats)) (mod-eq_of_lt h)
          all_of)

  first_in-bound : (k idx : ℕ) → idx < length seats → first_in seats k idx < length seats
  unfolding first_in
  first_in-bound zero idx h = h
  first_in-bound (suc k) idx h =
      if-elim (λ j. j < length seats) (folded_at seats idx)
        (λ e. first_in-bound k ((idx + 1) % length seats) (mod-lt (idx + 1) (omega arith))) (λ e. h)

  start_index-bound :
      (dealer_idx : ℕ) (aggressor : Option ℕ)
      → 0 < length seats
      → start_index seats dealer_idx aggressor < length seats
  start_index-bound dealer_idx none p =
      first_in-bound (length seats) ((dealer_idx % length seats + 1) % length seats)
        (mod-lt (dealer_idx % length seats + 1) p)
  start_index-bound dealer_idx (some pid) p =
      elim (Option-cases (position (λ s. s.player_id == pid) seats)) [
        | inl e ↦ rw (e, start_index) (mod-lt (dealer_idx % length seats + 1) p)
        | inr (i, e) ↦
            let (s, at_i, same) = position-get (λ (s : HandSeat). s.player_id == pid) seats i e in
            rw (e, start_index) (get-bound seats i s at_i)
      ]

  rotated_order :
      (preflop_bring_in big_blind : ℕ) (actions : List ActionRecord) (dealer_idx : ℕ)
      (aggressor : Option ℕ)
      → last_aggressor preflop_bring_in big_blind actions ≡ some aggressor
      → 1 < count is_in seats
      → compute_show_order preflop_bring_in big_blind actions seats dealer_idx
        ≡ some (ids_of_seats (filter is_in (rotate (start_index seats dealer_idx aggressor) seats)))
  unfolding compute_show_order
  rotated_order preflop_bring_in big_blind actions dealer_idx aggressor e alive =
      let several : leb (count is_in seats) 1 ≡ false = ground (arith, alive) in
      let k = start_index seats dealer_idx aggressor in
      let bound =
        start_index-bound dealer_idx aggressor (omega (arith, count-length is_in seats, alive)) in
      rw several (
        rw e (
          ap some (
            ap (λ n. walk seats n k (count is_in seats)) (sym (length-rotate k seats))
            ∙ walk-IsPath seats k (count is_in seats) (rotate k seats) (rotate-IsPath k bound)
                (sym (count-rotate is_in k seats)))))

  -- Where more than one player is in and the recorded chips add up to less than 2 ^ 32, the order in
  -- which hands are shown does not panic, and it names the players who did not fold, each seat once,
  -- around the table from a first seat. That is the first seat of the player of the last fact that
  -- raised the bet on the last street with a record; where no fact did, it is the first seat to the
  -- left of the button that did not fold, and where nobody has the raiser's id, the seat after the
  -- button.
  pub compute_show_order-rotate :
      (preflop_bring_in big_blind : ℕ) (actions : List ActionRecord) (dealer_idx : ℕ)
      → recorded actions < u32_mod
      → 1 < count is_in seats
      → (raiser : Option ℕ) × (k : ℕ) × IsLastRaiser preflop_bring_in big_blind actions raiser
        × IsStart seats dealer_idx raiser k
        × (compute_show_order preflop_bring_in big_blind actions seats dealer_idx
            ≡ some (ids_of_seats (filter is_in (rotate k seats))))
  compute_show_order-rotate preflop_bring_in big_blind actions dealer_idx h alive =
      let (raiser, e) = last_aggressor-some preflop_bring_in big_blind actions h in
      (
        raiser,
        start_index seats dealer_idx raiser,
        last_aggressor-IsLastRaiser preflop_bring_in big_blind actions raiser e,
        start_index-IsStart seats dealer_idx raiser (omega (arith, alive)),
        rotated_order preflop_bring_in big_blind actions dealer_idx raiser e alive,
      )

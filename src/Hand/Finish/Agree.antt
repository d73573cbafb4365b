-- ===== src/Hand/Finish/Agree.antt =====
-- engine/src/game/pots.rs: finish_blind and finish_blind_with_forfeits agree.
use bluffking.Prelude.{
  ℕ, suc, ◌≤◌, ◌≡◌, refl, sym, ap, ◌∙◌, ◌⊎◌, inl, inr, List, [], ◌∷◌, arith, leb, Bool-cases,
  length, any,
}
use bluffking.Card.{HoleCards}
use bluffking.Eval.{Evaluator}
use bluffking.Settle.Seat.{HandSeat, HoleSlot, empty_slot, plain, opaque, revealed}
use bluffking.Settle.Split.{PotResult}
use bluffking.Hand.State.{Hand, is_done, is_blind_mode}
use bluffking.Hand.Finish.{
  BlindFinishError, paid, assemble, nobody, non_folded, uncontested, lone_of, all_shown,
  those_shown, not_shown, contested, finish_done, finish_blind, contested_by, forfeit_done,
  finish_blind_with_forfeits,
}

Slot-cases :
    (slot : HoleSlot)
    → ((hole : HoleCards) × (slot ≡ revealed hole))
      ⊎ ((slot ≡ empty_slot) ⊎ (((hole : HoleCards) × (slot ≡ plain hole)) ⊎ (slot ≡ opaque)))
Slot-cases empty_slot = inr (inl refl)
Slot-cases (plain hole) = inr (inr (inl (hole, refl)))
Slot-cases opaque = inr (inr (inr refl))
Slot-cases (revealed hole) = inl (hole, refl)

Shown-cases :
    (x : BlindFinishError ⊎ List (ℕ × HoleCards))
    → ((reason : BlindFinishError) × (x ≡ inl reason))
      ⊎ ((shown : List (ℕ × HoleCards)) × (x ≡ inr shown))
Shown-cases (inl reason) = inl (reason, refl)
Shown-cases (inr shown) = inr (shown, refl)

abbrev cards_or_none : BlindFinishError ⊎ List (ℕ × HoleCards) → List (ℕ × HoleCards)
cards_or_none (inl reason) = []
cards_or_none (inr shown) = shown

-- Where all have shown their cards, those who have are all of them.
all_shown-those_shown :
    (seats : List HandSeat) (shown : List (ℕ × HoleCards))
    → all_shown seats ≡ inr shown
    → (those_shown seats ≡ shown) × (not_shown seats ≡ []) × (length shown ≡ length seats)
unfolding all_shown those_shown not_shown
all_shown-those_shown [] shown e =
    let none_shown = ap cards_or_none e in (none_shown, refl, ap length (sym none_shown))
all_shown-those_shown (s ∷ seats) shown e = elim (Slot-cases s.hole) [
  | inl (hole, at) ↦
      let e1 = simp (all_shown, at) at e in
      elim (Shown-cases (all_shown seats)) [
        | inl (reason, failed) ↦ absurd (ground (arith, simp failed at e1))
        | inr (rest, good) ↦
            let (those, missing, counted) = all_shown-those_shown seats rest good in
            let whole : ((s.player_id, hole) ∷ rest) ≡ shown = ap cards_or_none (simp good at e1) in
            (
              simp (those_shown, at) (ap (λ xs. (s.player_id, hole) ∷ xs) those ∙ whole),
              simp (not_shown, at) missing,
              ap length (sym whole) ∙ ap suc counted,
            )
      ]
  | inr (inl at) ↦ absurd (ground (arith, simp (all_shown, at) at e))
  | inr (inr (inl (hole, at))) ↦ absurd (ground (arith, simp (all_shown, at) at e))
  | inr (inr (inr at)) ↦ absurd (ground (arith, simp (all_shown, at) at e))
]

-- The same settlement, with nobody as a forfeiter.
contested_by-all_shown :
    (ev : Evaluator) (h : Hand) (shown : List (ℕ × HoleCards))
    → 1 ≤ length shown
    → contested_by ev h shown [] ≡ assemble ev h shown nobody
unfolding any
contested_by-all_shown ev h [] some_shown = absurd (omega (arith, some_shown))
contested_by-all_shown ev h (x ∷ shown) some_shown = refl

forfeit_done-finish_done :
    (ev : Evaluator) (h : Hand) (results : List PotResult)
    → finish_done ev h ≡ paid results
    → forfeit_done ev h ≡ paid results
forfeit_done-finish_done ev h results e =
    let seats = non_folded h in
    elim (Bool-cases (leb (length seats) 1)) [
      | inl alone ↦
          let e1 : uncontested h (lone_of seats) ≡ paid results = rw alone at e in rw alone e1
      | inr many ↦
          let e1 : contested ev h (all_shown seats) ≡ paid results = rw many at e in
          elim (Shown-cases (all_shown seats)) [
            | inl (reason, failed) ↦ absurd (ground (arith, ap (contested ev h) (sym failed) ∙ e1))
            | inr (shown, good) ↦
                let (those, missing, counted) = all_shown-those_shown seats shown good in
                let some_shown : 1 ≤ length shown = ground (arith, counted, many) in
                let e2 : assemble ev h shown nobody ≡ paid results =
                  ap (contested ev h) (sym good) ∙ e1 in
                let by : contested_by ev h (those_shown seats) (not_shown seats) ≡ paid results =
                  ap (λ xs. contested_by ev h xs (not_shown seats)) those
                  ∙ ap (contested_by ev h shown) missing
                  ∙ contested_by-all_shown ev h shown some_shown
                  ∙ e2 in
                rw many by
          ]
    ]

-- Whatever the evaluator: where finish_blind pays the pots, finish_blind_with_forfeits pays them with
-- the same results.
pub finish_blind-finish_blind_with_forfeits :
    (ev : Evaluator) (h : Hand) (results : List PotResult)
    → finish_blind ev h ≡ paid results
    → finish_blind_with_forfeits ev h ≡ paid results
unfolding finish_blind finish_blind_with_forfeits
finish_blind-finish_blind_with_forfeits ev h results e = elim (Bool-cases (is_done h)) [
  | inr live ↦ absurd (ground (arith, rw live at e))
  | inl over ↦ elim (Bool-cases (is_blind_mode h.mode)) [
    | inr open_hand ↦ absurd (ground (arith, rw (over, open_hand) at e))
    | inl blind ↦
        let pays : finish_done ev h ≡ paid results = rw (over, blind) at e in
        rw (over, blind) (forfeit_done-finish_done ev h results pays)
  ]
]

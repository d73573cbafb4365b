-- ===== src/Hand/Reach/Withheld.antt =====
-- engine/src/game/pots.rs: the end of a blind hand whose board is withheld shows no card, and leaves
-- no round of betting.
use bluffking.Prelude.{
  ℕ, ◌≡◌, refl, ap, subst, ◌∙◌, ◌⊎◌, inl, inr, not, ◌&&◌, none, List, [], ◌∷◌, ◌++◌, ◌==◌,
  Bool-cases, Option-cases,
}
use bluffking.Settle.Seat.{HandSeat}
use bluffking.Settle.HandPots.{hand_side_pots}
use bluffking.Hand.State.{Hand, finished, is_blind_mode, set_done}
use bluffking.Hand.Street.{absorb_round}
use bluffking.Hand.Finish.{
  Finished, force_fold, force_fold_all, withheld, finish_blind_forfeit_board,
}
use bluffking.Hand.Board.{all_revealed, revealed_cards}
use bluffking.Hand.Board.Shown.{SameCards, SameCards-trans, SameCards-refl, absorb_round-SameCards}
use bluffking.Hand.Advance.{absorb_round-none}

force_fold-all_revealed :
    (pid : ℕ) (seats : List HandSeat) → all_revealed (force_fold pid seats) ≡ all_revealed seats
unfolding force_fold all_revealed
force_fold-all_revealed pid [] = refl
force_fold-all_revealed pid (s ∷ seats) = elim (Bool-cases (s.player_id == pid && not s.folded)) [
  | inl folds ↦ simp (force_fold, folds) refl
  | inr other ↦
      simp (force_fold, other)
        (ap (λ cards. revealed_cards s.hole ++ cards) (force_fold-all_revealed pid seats))
]

force_fold_all-all_revealed :
    (pids : List ℕ) (seats : List HandSeat)
    → all_revealed (force_fold_all pids seats) ≡ all_revealed seats
unfolding force_fold_all
force_fold_all-all_revealed [] seats = refl
force_fold_all-all_revealed (pid ∷ pids) seats =
    force_fold_all-all_revealed pids (force_fold pid seats) ∙ force_fold-all_revealed pid seats

withheld-SameCards : (h : Hand) (withholders : List ℕ) → SameCards h (withheld h withholders)
unfolding withheld set_done
withheld-SameCards h withholders = record {
  same_mode = refl;
  same_board = refl;
  same_second = refl;
  same_shown = force_fold_all-all_revealed withholders h.seats;
}

-- The hand is refused, or it has no round; if it has changed its phase, it is finished.
abbrev pub Stops : Hand → Hand → Type 0
Stops h h' =
    SameCards h h'
    × ((h ≡ h') ⊎ ((h'.betting_round ≡ none) × ((h'.phase ≡ h.phase) ⊎ (h'.phase ≡ finished))))

absorbed-Stops : (h : Hand) → Stops h (absorb_round h)
unfolding absorb_round
absorbed-Stops h = elim (Option-cases h.betting_round) [
  | inl missing ↦ simp (absorb_round, missing) (SameCards-refl h, inl refl)
  | inr (r, there) ↦
      simp (absorb_round, there)
        (
          record { same_mode = refl; same_board = refl; same_second = refl; same_shown = refl },
          inr (refl, inl refl),
        )
]

withheld-Stops : (h : Hand) (withholders : List ℕ) → Stops h (withheld (absorb_round h) withholders)
unfolding withheld set_done
withheld-Stops h withholders = (
  SameCards-trans (absorb_round-SameCards h) (withheld-SameCards (absorb_round h) withholders),
  inr (absorb_round-none h, inr refl),
)

-- What the end of a hand whose board is withheld leaves.
pub finish_blind_forfeit_board-Stops :
    (h h' : Hand) (withholders : List ℕ) (result : Finished)
    → finish_blind_forfeit_board h withholders ≡ (h', result)
    → Stops h h'
unfolding finish_blind_forfeit_board
finish_blind_forfeit_board-Stops h h' withholders result e =
    let absorbed = absorb_round h in
    let first = ap (λ x. x.0) e in
    elim (Bool-cases (not (is_blind_mode h.mode))) [
      | inl plain ↦
          subst (Stops h) (simp (finish_blind_forfeit_board, plain) at first)
            (SameCards-refl h, inl refl)
      | inr blind ↦
          elim (Option-cases (hand_side_pots absorbed.posted_big_blind_ante absorbed.seats)) [
            | inl panics ↦
                subst (Stops h) (simp (finish_blind_forfeit_board, blind, panics) at first)
                  (absorbed-Stops h)
            | inr (pots, reads) ↦
                subst (Stops h) (simp (finish_blind_forfeit_board, blind, reads) at first)
                  (withheld-Stops h withholders)
          ]
    ]

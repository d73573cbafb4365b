-- ===== src/Hand/Reach/Hidden.antt =====
-- engine/src/game: no player's cards are shown before a blind hand ends.
use bluffking.Prelude.{
  ℕ, ◌≡◌, refl, subst, ◌∙◌, ◌⊎◌, inl, inr, true, false, not, ◌||◌, none, some, List, [], arith, ltb,
  ◌==◌, Bool-cases,
}
use bluffking.Card.{Card, Street, BoardCards, board_count}
use bluffking.Hand.State.{Hand, Phase, blind_mode, is_done, phase_done, contenders, round_is_done}
use bluffking.Hand.Snapshot.{snapshot, snapshot-same}
use bluffking.Hand.Street.{close_street_and_advance}
use bluffking.Hand.Board.{
  accepted, or_else-accepted, accepted-injective, >>-accepted, no_board_pending,
  no_second_run_pending, is_preflop, is_some, after_board, inject_second_run, restore_run_twice,
  all_revealed,
}
use bluffking.Hand.Board.Shown.{close-SameCards}
use bluffking.Hand.Board.Distinct.{
  inject_board-placed, inject_second_run-placed, inject_showdown_reveal-shown,
}
use bluffking.Hand.Reach.{
  Step, started, acted, board_given, shown, chosen, run_twice, restored, not_restored,
  board_withheld, Reaches, here, after, Options, blind_hand,
}
use bluffking.Hand.Reach.Withheld.{finish_blind_forfeit_board-Stops}
use bluffking.Hand.Reach.Acted.{apply_action_inner-SameCards}
use bluffking.Hand.Reach.Started.{start-SameCards}
use bluffking.Hand.Reach.Distinct.{
  choose_runout-SameCards, restore_left-SameCards, all_revealed-opaque, Reaches-IsDistinct,
}
use bluffking.Hand.Reach.Lifecycle.{Move, unchanged, begun, moved_on, ended}
use bluffking.Hand.Reach.Phases.{Step-Move}

finished-stays : (p q : Phase) → Move p q → phase_done p ≡ true → phase_done q ≡ true
finished-stays _ _ (unchanged p) e = e
finished-stays _ _ (begun s) e = cc
finished-stays _ _ (moved_on s t further) e = cc
finished-stays _ _ (ended p) e = refl

-- The same cards are shown by the players.
abbrev SameShown : Hand → Hand → Type 0
SameShown h h' = all_revealed h'.seats ≡ all_revealed h.seats

after_board-SameShown :
    (h h' : Hand) (board' : BoardCards)
    → h.mode ≡ blind_mode
    → after_board h board' ≡ accepted h'
    → SameShown h h'
after_board-SameShown h h' board' blind e =
    let placed : Hand = record h { board = board'; pending_board_street = none } in
    elim (Bool-cases (round_is_done placed)) [
      | inl over ↦
          let shut =
            or_else-accepted (close_street_and_advance placed) no_board_pending (rw over at e) in
          (close-SameCards 4 placed h' blind shut).same_shown
      | inr still ↦
          let read = or_else-accepted (snapshot placed) no_board_pending (rw still at e) in
          subst (SameShown h) (snapshot-same placed h' read) refl
    ]

inject_second_run-SameShown :
    (h h' : Hand) (cards : List Card) → inject_second_run h cards ≡ accepted h' → SameShown h h'
inject_second_run-SameShown h h' cards e =
    let (from, second, checked, shared, runs) = inject_second_run-placed h h' cards e in
    subst (SameShown h) (accepted-injective runs) refl

restore_run_twice-SameShown :
    (h h' : Hand) (from : Street) (cards : List Card)
    → restore_run_twice h from cards ≡ accepted h'
    → SameShown h h'
unfolding restore_run_twice
restore_run_twice-SameShown h h' from cards e =
    let closed = not (
      is_preflop from
      || (not (is_done h)
          || (not (board_count h.board == 5)
              || (is_some h.run_twice_from || ltb (contenders h) 2)))) in
    let chosen_hand : Hand = record h { runout_choice = some true; run_twice_from = some from } in
    let (allowed, e1) =
      >>-accepted closed no_second_run_pending (inject_second_run chosen_hand cards) e in
    inject_second_run-SameShown chosen_hand h' cards e1

-- A step shows the cards of a player only in a hand that is finished.
Step-shown : (h h' : Hand) → h.mode ≡ blind_mode → Step h h' → (is_done h ≡ true) ⊎ SameShown h h'
Step-shown h h' blind (started _ _ e) = inr (start-SameCards h h' blind e).same_shown
Step-shown h h' blind (acted _ _ player_id action forfeit closed e) =
    inr (apply_action_inner-SameCards h h' player_id action forfeit closed blind e).same_shown
Step-shown h h' blind (board_given _ _ cards e) =
    let (street, board', checked, set, closes) = inject_board-placed h h' cards e in
    inr (after_board-SameShown h h' board' blind closes)
Step-shown h h' blind (shown _ _ player_id hole e) =
    inl (inject_showdown_reveal-shown h h' player_id hole e).0
Step-shown h h' blind (chosen _ _ twice e) = inr (choose_runout-SameCards h h' twice e).same_shown
Step-shown h h' blind (run_twice _ _ cards e) = inr (inject_second_run-SameShown h h' cards e)
Step-shown h h' blind (restored _ _ from cards e) =
    inr (restore_run_twice-SameShown h h' from cards e)
Step-shown h _ blind (not_restored _ from cards reason e) =
    inr (restore_left-SameCards h from).same_shown
Step-shown h h' blind (board_withheld _ _ withholders result e) =
    inr (finish_blind_forfeit_board-Stops h h' withholders result e).0.same_shown

abbrev Hidden : Hand → Type 0
Hidden h = (is_done h ≡ true) ⊎ (all_revealed h.seats ≡ [])

blind_hand-Hidden :
    (o : Options) (players : List (ℕ × ℕ × ℕ)) (dealer_idx big_blind small_blind : ℕ)
    → Hidden (blind_hand o players dealer_idx big_blind small_blind)
blind_hand-Hidden o players dealer_idx big_blind small_blind = elim (Bool-cases o.dead_small) [
  | inl dead ↦ simp dead (inr (all_revealed-opaque players))
  | inr live ↦ simp live (inr (all_revealed-opaque players))
]

Step-Hidden :
    (h h' : Hand) → h.mode ≡ blind_mode → Move h.phase h'.phase → Step h h' → Hidden h → Hidden h'
Step-Hidden h h' blind move step (inl over) = inl (finished-stays h.phase h'.phase move over)
Step-Hidden h h' blind move step (inr hidden) = elim (Step-shown h h' blind step) [
  | inl over ↦ inl (finished-stays h.phase h'.phase move over)
  | inr same ↦ inr (same ∙ hidden)
]

reached-Hidden :
    (o : Options) (players : List (ℕ × ℕ × ℕ)) (dealer_idx big_blind small_blind : ℕ) (h : Hand)
    → Reaches (blind_hand o players dealer_idx big_blind small_blind) h
    → Hidden h
reached-Hidden o players dealer_idx big_blind small_blind _ here =
    blind_hand-Hidden o players dealer_idx big_blind small_blind
reached-Hidden o players dealer_idx big_blind small_blind _ (after h h' reached step) =
    let distinct = Reaches-IsDistinct o players dealer_idx big_blind small_blind h reached in
    let move = Step-Move o players dealer_idx big_blind small_blind h h' reached step in
    let hidden = reached-Hidden o players dealer_idx big_blind small_blind h reached in
    Step-Hidden h h' distinct.blind move step hidden

-- Whatever has been done with a blind hand: as long as it is not finished, the cards of no player are
-- shown.
pub Reaches-all_revealed :
    (o : Options) (players : List (ℕ × ℕ × ℕ)) (dealer_idx big_blind small_blind : ℕ) (h : Hand)
    → Reaches (blind_hand o players dealer_idx big_blind small_blind) h
    → is_done h ≡ false
    → all_revealed h.seats ≡ []
Reaches-all_revealed o players dealer_idx big_blind small_blind h reached live =
    elim (reached-Hidden o players dealer_idx big_blind small_blind h reached) [
      | inl over ↦ absurd (ground (arith, over, live))
      | inr hidden ↦ hidden
    ]

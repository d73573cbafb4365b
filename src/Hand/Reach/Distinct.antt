-- ===== src/Hand/Reach/Distinct.antt =====
-- engine/src/game: no card comes twice in a blind hand, whatever calls it accepts.
use bluffking.Prelude.{
  ℕ, ◌≡◌, refl, subst, inl, inr, Bool, true, not, ◌||◌, some, List, [], ◌∷◌, map, arith, ltb, ◌==◌,
  if◌then◌else◌, Bool-cases, count,
}
use bluffking.Card.{Card, Street, all_cards, board_count}
use bluffking.Settle.Seat.{opaque}
use bluffking.Hand.State.{Hand, seat_with, is_done, contenders}
use bluffking.Hand.Board.{
  Injected, accepted, or_refuse, >>=-accepted, >>-accepted, accepted-injective, is_preflop, is_some,
  runout_choice_closed, no_second_run_pending, runout_choice_street, choose_runout,
  inject_second_run, restore_run_twice, is_restorable, restore_left, all_revealed,
}
use bluffking.Hand.Board.Shown.{SameCards-refl, SameCards}
use bluffking.Hand.Board.Distinct.{
  IsDistinct, SameCards-IsDistinct, inject_board-IsDistinct, inject_second_run-IsDistinct,
  inject_showdown_reveal-IsDistinct,
}
use bluffking.Hand.Reach.{
  Step, started, acted, board_given, shown, chosen, run_twice, restored, not_restored,
  board_withheld, Reaches, here, after, Options, blind_hand,
}
use bluffking.Hand.Reach.Withheld.{finish_blind_forfeit_board-Stops}
use bluffking.Hand.Reach.Acted.{apply_action_inner-SameCards}
use bluffking.Hand.Reach.Started.{start-SameCards}

abbrev pub choice_made : Hand → Bool → Street → Injected Hand
choice_made h twice street = accepted (record h {
  runout_choice = some twice;
  run_twice_from = if twice then some street else h.run_twice_from;
})

pub choose_runout-SameCards :
    (h h' : Hand) (twice : Bool) → choose_runout h twice ≡ accepted h' → SameCards h h'
unfolding choose_runout
choose_runout-SameCards h h' twice e =
    let (street, open_now, e1) =
      >>=-accepted (or_refuse (runout_choice_street h) runout_choice_closed) (choice_made h twice)
        e in
    subst (SameCards h) (accepted-injective e1)
      (record { same_mode = refl; same_board = refl; same_second = refl; same_shown = refl })

restore_run_twice-IsDistinct :
    (h h' : Hand) (from : Street) (cards : List Card)
    → IsDistinct h
    → restore_run_twice h from cards ≡ accepted h'
    → IsDistinct h'
unfolding restore_run_twice
restore_run_twice-IsDistinct h h' from cards distinct e =
    let closed = not (
      is_preflop from
      || (not (is_done h)
          || (not (board_count h.board == 5)
              || (is_some h.run_twice_from || ltb (contenders h) 2)))) in
    let chosen_hand : Hand = record h { runout_choice = some true; run_twice_from = some from } in
    let (allowed, e1) =
      >>-accepted closed no_second_run_pending (inject_second_run chosen_hand cards) e in
    inject_second_run-IsDistinct chosen_hand h' cards
      (record {
        blind = distinct.blind;
        first_board = distinct.first_board;
        second = distinct.second;
      })
      e1

pub restore_left-SameCards : (h : Hand) (from : Street) → SameCards h (restore_left h from)
unfolding restore_left
restore_left-SameCards h from = elim (Bool-cases (is_restorable h from)) [
  | inl asked ↦
      rw asked
        (record { same_mode = refl; same_board = refl; same_second = refl; same_shown = refl })
  | inr closed ↦ rw closed (SameCards-refl h)
]

-- Every step that a blind hand accepts leaves its cards distinct.
pub Step-IsDistinct : (h h' : Hand) → Step h h' → IsDistinct h → IsDistinct h'
Step-IsDistinct h h' (started _ _ e) d = SameCards-IsDistinct (start-SameCards h h' d.blind e) d
Step-IsDistinct h h' (acted _ _ player_id action forfeit closed e) d =
    SameCards-IsDistinct
      (apply_action_inner-SameCards h h' player_id action forfeit closed d.blind e) d
Step-IsDistinct h h' (board_given _ _ cards e) d = inject_board-IsDistinct h h' cards d e
Step-IsDistinct h h' (shown _ _ player_id hole e) d =
    inject_showdown_reveal-IsDistinct h h' player_id hole d e
Step-IsDistinct h h' (chosen _ _ twice e) d =
    SameCards-IsDistinct (choose_runout-SameCards h h' twice e) d
Step-IsDistinct h h' (run_twice _ _ cards e) d = inject_second_run-IsDistinct h h' cards d e
Step-IsDistinct h h' (restored _ _ from cards e) d =
    restore_run_twice-IsDistinct h h' from cards d e
Step-IsDistinct h _ (not_restored _ from cards reason e) d =
    SameCards-IsDistinct (restore_left-SameCards h from) d
Step-IsDistinct h h' (board_withheld _ _ withholders result e) d =
    SameCards-IsDistinct (finish_blind_forfeit_board-Stops h h' withholders result e).0 d

pub all_revealed-opaque :
    (players : List (ℕ × ℕ × ℕ)) → all_revealed (map (seat_with opaque) players) ≡ []
unfolding all_revealed
all_revealed-opaque [] = refl
all_revealed-opaque (p ∷ players) = all_revealed-opaque players

blind_hand-IsDistinct :
    (o : Options) (players : List (ℕ × ℕ × ℕ)) (dealer_idx big_blind small_blind : ℕ)
    → IsDistinct (blind_hand o players dealer_idx big_blind small_blind)
unfolding all_cards count
blind_hand-IsDistinct o players dealer_idx big_blind small_blind = elim (Bool-cases o.dead_small) [
  | inl dead ↦ simp dead (record {
    blind = refl;
    first_board = λ c. rw (all_revealed-opaque players) (omega arith);
    second = λ c. rw (all_revealed-opaque players) (omega arith);
  })
  | inr live ↦ simp live (record {
    blind = refl;
    first_board = λ c. rw (all_revealed-opaque players) (omega arith);
    second = λ c. rw (all_revealed-opaque players) (omega arith);
  })
]

-- Whatever actions are made, and whatever boards, second runs, players' cards and board forfeits a
-- blind hand accepts, with refused restores of a second run among them, in any order: no card is on the board, or on the second board, or shown by a player
-- twice, and no card shown by a player is on a board.
pub Reaches-IsDistinct :
    (o : Options) (players : List (ℕ × ℕ × ℕ)) (dealer_idx big_blind small_blind : ℕ) (h : Hand)
    → Reaches (blind_hand o players dealer_idx big_blind small_blind) h
    → IsDistinct h
Reaches-IsDistinct o players dealer_idx big_blind small_blind _ here =
    blind_hand-IsDistinct o players dealer_idx big_blind small_blind
Reaches-IsDistinct o players dealer_idx big_blind small_blind _ (after h h' reached step) =
    Step-IsDistinct h h' step
      (Reaches-IsDistinct o players dealer_idx big_blind small_blind h reached)

-- ===== src/Hand/Board/Distinct.antt =====
-- engine/src/game/streets.rs: no injection into a blind hand brings a card twice.
use bluffking.Prelude.{
  ℕ, ◌+◌, ◌≤◌, ◌≡◌, subst, ◌∙◌, ◌⊎◌, inl, inr, true, not, ◌&&◌, Option, none, List, ◌++◌, arith,
  ◌==◌, Bool-cases, length,
}
use bluffking.Card.{Street, Card, card_eq, HoleCards, as_array, BoardCards, board_count, all_cards}
use bluffking.Settle.Seat.{HandSeat, HoleSlot, empty_slot, plain, opaque, revealed}
use bluffking.Hand.State.{
  Hand, blind_mode, is_done, is_blind_mode, round_is_done, cards_for_street, second_run_cards_from,
}
use bluffking.Hand.Street.{set_board_for_street, close_street_and_advance}
use bluffking.Action.{ok}
use bluffking.Hand.Board.{
  Injected, accepted, ◌>>=◌, ◌>>◌, guard, or_refuse, or_else, >>=-accepted, >>-accepted,
  or_else-accepted, accepted-injective, not_blind_mode, no_board_pending, not_at_showdown,
  no_second_run_pending, wrong_board_count, unknown_player, player_is_folded, is_preflop,
  all_revealed, second_cards, known_cards, check_injected_cards_unique, after_board, place_board,
  board_at, inject_board_for_street, same_hole, reveal_seat, reveal_checked, reveal_slot, reveal_at,
  seat_of, inject_showdown_reveal, second_of, has_second, with_second, second_at, inject_second_run,
}
use bluffking.Hand.Board.Times.{
  times_in, count-append, check_unique-times_in, set_board-times_in, second_of-times_in,
  reveal_seat-times_in,
}
use bluffking.Hand.Snapshot.{snapshot, snapshot-same}
use bluffking.Hand.Board.Shown.{SameCards, close-SameCards}

-- In a blind hand, no card is on the board, or on the second board, or shown by a player twice.
pub record IsDistinct (h : Hand) : Type 0 where
  pub blind : h.mode ≡ blind_mode
  pub first_board :
      (c : Card) → times_in c (all_cards h.board) + times_in c (all_revealed h.seats) ≤ 1
  pub second :
      (c : Card) → times_in c (second_cards h.second_board) + times_in c (all_revealed h.seats) ≤ 1

pub SameCards-IsDistinct : {h h' : Hand} → SameCards h h' → IsDistinct h → IsDistinct h'
SameCards-IsDistinct same distinct = record {
  blind = same.same_mode ∙ distinct.blind;
  first_board = λ c. rw (same.same_board, same.same_shown) (distinct.first_board c);
  second = λ c. rw (same.same_second, same.same_shown) (distinct.second c);
}

-- Cards that are checked against a hand are no card of its boards and seats.
check-times_in :
    (h : Hand) (cards : List Card) (c : Card)
    → check_injected_cards_unique h cards ≡ accepted tt
    → (times_in c cards ≤ 1)
      × ((times_in c cards ≡ 0)
          ⊎ ((times_in c (all_cards h.board) ≡ 0)
              × (times_in c (second_cards h.second_board) ≡ 0)
              × (times_in c (all_revealed h.seats) ≡ 0)))
check-times_in h cards c e =
    let (once, apart) = check_unique-times_in (known_cards h) cards e c in
    let shown = second_cards h.second_board ++ all_revealed h.seats in
    let first = count-append (card_eq c) (all_cards h.board) shown in
    let last = count-append (card_eq c) (second_cards h.second_board) (all_revealed h.seats) in
    (
      once,
      elim apart [
        | inl absent ↦ inl absent
        | inr absent ↦ inr (
          omega (arith, first, last, absent),
          omega (arith, first, last, absent),
          omega (arith, first, last, absent),
        )
      ],
    )

-- A board that got checked cards.
board-IsDistinct :
    (h : Hand) (cards : List Card) (b' : BoardCards)
    → IsDistinct h
    → check_injected_cards_unique h cards ≡ accepted tt
    → ((c : Card) → times_in c (all_cards b') ≤ times_in c (all_cards h.board) + times_in c cards)
    → (c : Card) → times_in c (all_cards b') + times_in c (all_revealed h.seats) ≤ 1
board-IsDistinct h cards b' distinct checked within_cards c =
    let (once, apart) = check-times_in h cards c checked in
    let bound = within_cards c in
    elim apart [
      | inl absent ↦ omega (arith, absent, bound, distinct.first_board c)
      | inr (on_board, on_second, on_seats) ↦ omega (arith, on_board, on_seats, bound, once)
    ]

-- The board is placed, and the street closed when the bets are in.
after_board-IsDistinct :
    (h h' : Hand) (board' : BoardCards)
    → IsDistinct (record h { board = board'; pending_board_street = none })
    → after_board h board' ≡ accepted h'
    → IsDistinct h'
after_board-IsDistinct h h' board' distinct e =
    let placed : Hand = record h { board = board'; pending_board_street = none } in
    elim (Bool-cases (round_is_done placed)) [
      | inl closed ↦
          let e' =
            or_else-accepted (close_street_and_advance placed) no_board_pending (rw closed at e) in
          SameCards-IsDistinct (close-SameCards 4 placed h' distinct.blind e') distinct
      | inr still ↦
          let reads = or_else-accepted (snapshot placed) no_board_pending (rw still at e) in
          subst IsDistinct (snapshot-same placed h' reads) distinct
    ]

-- What an accepted board has passed.
pub inject_board-placed :
    (h h' : Hand) (cards : List Card)
    → inject_board_for_street h cards ≡ accepted h'
    → (street : Street) × (board' : BoardCards) × (check_injected_cards_unique h cards
        ≡ accepted tt)
      × (set_board_for_street street cards h.board ≡ ok board')
      × (after_board h board' ≡ accepted h')
unfolding inject_board_for_street
inject_board-placed h h' cards e =
    let (blind, e1) =
      >>-accepted (is_blind_mode h.mode) not_blind_mode
        (or_refuse h.pending_board_street no_board_pending >>= board_at h cards) e in
    let (street, pending, e2) =
      >>=-accepted (or_refuse h.pending_board_street no_board_pending) (board_at h cards) e1 in
    let checks : Injected Hand =
      check_injected_cards_unique h cards >> place_board h street cards in
    let count_ok = length cards == cards_for_street street in
    let wrong = wrong_board_count street (cards_for_street street) (length cards) in
    let (later, e3) =
      >>-accepted (not (is_preflop street)) no_board_pending (guard count_ok wrong >> checks) e2 in
    let (counted, e4) = >>-accepted count_ok wrong checks e3 in
    let (done, checked, e5) =
      >>=-accepted (check_injected_cards_unique h cards) (λ nothing. place_board h street cards)
        e4 in
    let set = or_else (set_board_for_street street cards h.board) no_board_pending in
    let (board', placed, e6) = >>=-accepted set (after_board h) e5 in
    let e7 = or_else-accepted (set_board_for_street street cards h.board) no_board_pending placed in
    (street, board', checked, e7, e6)

-- A board that a blind hand accepts brings no card twice: whatever cards are on the boards and shown
-- by the players afterwards are all different when they were before.
pub inject_board-IsDistinct :
    (h h' : Hand) (cards : List Card)
    → IsDistinct h
    → inject_board_for_street h cards ≡ accepted h'
    → IsDistinct h'
inject_board-IsDistinct h h' cards distinct e =
    let (street, board', checked, set, closes) = inject_board-placed h h' cards e in
    let on_board =
      board-IsDistinct h cards board' distinct checked
        (λ c. set_board-times_in street cards h.board board' c set) in
    after_board-IsDistinct h h' board'
      (record { blind = distinct.blind; first_board = on_board; second = distinct.second }) closes

-- What an accepted second run has passed.
pub inject_second_run-placed :
    (h h' : Hand) (cards : List Card)
    → inject_second_run h cards ≡ accepted h'
    → (from : Street) × (second : BoardCards) × (check_injected_cards_unique h cards ≡ accepted tt)
      × (second_of from cards h.board ≡ accepted second)
      × (with_second h second ≡ accepted h')
unfolding inject_second_run
inject_second_run-placed h h' cards e =
    let (from, pending, e1) =
      >>=-accepted (or_refuse h.run_twice_from no_second_run_pending) (second_at h cards) e in
    let run : Injected Hand = second_of from cards h.board >>= with_second h in
    let checks : Injected Hand = check_injected_cards_unique h cards >> run in
    let count_ok = length cards == second_run_cards_from from in
    let wrong = wrong_board_count from (second_run_cards_from from) (length cards) in
    let at_end = is_done h && ((board_count h.board == 5) && not (has_second h)) in
    let (ended, e2) =
      >>-accepted at_end no_second_run_pending (guard count_ok wrong >> checks) e1 in
    let (counted, e3) = >>-accepted count_ok wrong checks e2 in
    let (done, checked, e4) =
      >>=-accepted (check_injected_cards_unique h cards) (λ nothing. run) e3 in
    let (second, shared, e5) = >>=-accepted (second_of from cards h.board) (with_second h) e4 in
    (from, second, checked, shared, e5)

-- A second run that a hand accepts brings no card twice.
pub inject_second_run-IsDistinct :
    (h h' : Hand) (cards : List Card)
    → IsDistinct h
    → inject_second_run h cards ≡ accepted h'
    → IsDistinct h'
inject_second_run-IsDistinct h h' cards distinct e =
    let (from, second, checked, shared, runs) = inject_second_run-placed h h' cards e in
    let on_second =
      board-IsDistinct h cards second distinct checked
        (λ c. second_of-times_in from cards h.board second c shared) in
    subst IsDistinct (accepted-injective runs)
      (record { blind = distinct.blind; first_board = distinct.first_board; second = on_second })

revealed-IsDistinct :
    (h h' : Hand) (player_id : ℕ) (hole : HoleCards)
    → IsDistinct h
    → reveal_checked h player_id hole ≡ accepted h'
    → IsDistinct h'
revealed-IsDistinct h h' player_id hole distinct e =
    let shown : Hand = record h { seats = reveal_seat player_id hole h.seats } in
    let (done, checked, e1) =
      >>=-accepted (check_injected_cards_unique h (as_array hole)) (λ nothing. accepted shown) e in
    let fits = λ (c : Card). check-times_in h (as_array hole) c checked in
    let bound = λ (c : Card). reveal_seat-times_in player_id hole h.seats c in
    subst IsDistinct (accepted-injective e1) (record {
      blind = distinct.blind;
      first_board = λ c. elim (fits c).1 [
        | inl absent ↦ omega (arith, absent, bound c, distinct.first_board c)
        | inr (on_board, on_second, on_seats) ↦
            omega (arith, on_board, on_seats, bound c, (fits c).0)
      ];
      second = λ c. elim (fits c).1 [
        | inl absent ↦ omega (arith, absent, bound c, distinct.second c)
        | inr (on_board, on_second, on_seats) ↦
            omega (arith, on_second, on_seats, bound c, (fits c).0)
      ];
    })

reveal_slot-IsDistinct :
    (h h' : Hand) (player_id : ℕ) (hole : HoleCards) (slot : HoleSlot)
    → IsDistinct h
    → reveal_slot h player_id hole slot ≡ accepted h'
    → IsDistinct h'
reveal_slot-IsDistinct h h' player_id hole empty_slot d e =
    revealed-IsDistinct h h' player_id hole d e
reveal_slot-IsDistinct h h' player_id hole (plain cards) d e =
    revealed-IsDistinct h h' player_id hole d e
reveal_slot-IsDistinct h h' player_id hole opaque d e = revealed-IsDistinct h h' player_id hole d e
reveal_slot-IsDistinct h h' player_id hole (revealed existing) d e =
    elim (Bool-cases (same_hole existing hole)) [
      | inl same ↦ subst IsDistinct (accepted-injective (rw same at e)) d
      | inr other ↦ absurd (ground (arith, rw other at e))
    ]

-- What an accepted showdown has passed.
pub inject_showdown_reveal-shown :
    (h h' : Hand) (player_id : ℕ) (hole : HoleCards)
    → inject_showdown_reveal h player_id hole ≡ accepted h'
    → (is_done h ≡ true) × (s : HandSeat) × (reveal_slot h player_id hole s.hole ≡ accepted h')
unfolding inject_showdown_reveal
inject_showdown_reveal-shown h h' player_id hole e =
    let at : Option HandSeat = seat_of h player_id in
    let found = or_refuse at (unknown_player player_id) in
    let here : Injected Hand = found >>= reveal_at h player_id hole in
    let (blind, e1) =
      >>-accepted (is_blind_mode h.mode) not_blind_mode (guard (is_done h) not_at_showdown >> here)
        e in
    let (ended, e2) = >>-accepted (is_done h) not_at_showdown here e1 in
    let (s, seated, e3) = >>=-accepted found (reveal_at h player_id hole) e2 in
    let slot = reveal_slot h player_id hole s.hole in
    let (in_hand, e4) = >>-accepted (not s.folded) (player_is_folded player_id) slot e3 in
    (ended, s, e4)

-- A player's cards that a blind hand accepts at the showdown bring no card twice.
pub inject_showdown_reveal-IsDistinct :
    (h h' : Hand) (player_id : ℕ) (hole : HoleCards)
    → IsDistinct h
    → inject_showdown_reveal h player_id hole ≡ accepted h'
    → IsDistinct h'
inject_showdown_reveal-IsDistinct h h' player_id hole distinct e =
    let (ended, s, shows) = inject_showdown_reveal-shown h h' player_id hole e in
    reveal_slot-IsDistinct h h' player_id hole s.hole distinct shows

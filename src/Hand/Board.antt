-- ===== src/Hand/Board.antt =====
-- engine/src/game/streets.rs: boards and hole cards that come from outside a blind hand, and the
-- choice to run the board twice.
pub mod Distinct
pub mod Shown
pub mod Times
use bluffking.Prelude.{
  ℕ, zero, suc, ◌+◌, ◌-◌, ◌*◌, ◌/◌, ◌%◌, ◌≤◌, ◌<◌, min, max, ◌≡◌, refl, sym, ap, subst, ◌∙◌, ◌≢◌,
  ◌↔◌, ◌⊎◌, inl, inr, Bool, true, false, not, ◌&&◌, ◌||◌, Option, none, some, List, [], ◌∷◌, ◌++◌,
  map, ℤ, pos, negsuc, negate, plus, times, within, same_int, same_int-eq, same_int_self, arith,
  ltb, leb, ◌==◌, if◌then◌else◌, if-elim, Bool-cases, Option-cases, ==_iff, ==_self, length,
  get_elem?, All, length-append, keep, length-map, All-append, All-if, modify, find, position, any,
  all, filter, count, sum_by, drop, drop-get, rotate, take-all, length-drop, length-rotate,
  count-rotate, map-filter-IsNodup, sort_by-All, IsSorted, sort_by-IsSorted, filter-sort_by,
  take_while-filter, take, take_while, map-sort_by-IsNodup, map-take_while-IsNodup,
  contains-map-sort_by, contains-map-take_while, sum_by-add, get-in_range, get-bound, position-get,
  position-any, count-modify, length-modify, get_elem?-modify_ne, get_elem?-modify_self, sort,
  dedup, sum32, sum, IsAscending, Occurs, sum32-eq, sort-IsAscending, sort-Occurs,
  dedup-IsAscending, dedup-Occurs, insert_by, sort_by, contains, sum_by-sort_by, length-sort_by,
  IsNodup, contains-sort_by, sort_by-IsNodup, sum_by-take, sum_by-const, sum_by-map, add32, sub32,
  u32_mod, saturating_add, add32-eq, sub32-eq,
}
use bluffking.Action.{Result, panicked, err, ok}
use bluffking.Card.{
  Card, card_eq, Street, preflop, flop, turn, river, HoleCards, as_array, BoardCards, all_cards,
  board_count,
}
use bluffking.Deck.{Deck, remaining}
use bluffking.Settle.Seat.{HandSeat, HoleSlot, empty_slot, plain, opaque, revealed, is_in}
use bluffking.Hand.Snapshot.{snapshot}
use bluffking.Hand.State.{
  Hand, is_done, is_blind_mode, round_is_done, contenders, cards_for_street, second_run_cards_from,
}
use bluffking.Hand.Street.{set_board_for_street, close_street_and_advance}
pub use bluffking.Hand.Injection.{
  BlindInjectError, Injected, ◌>>=◌, ◌>>◌, guard, or_refuse, or_else, >>=-accepted, >>-accepted,
  or_refuse-accepted, or_else-accepted, accepted-injective, not_blind_mode, no_board_pending,
  not_at_showdown, no_second_run_pending, runout_choice_closed, wrong_board_count, unknown_player,
  player_is_folded, already_revealed, duplicate_card, crashed, refused, accepted,
}

abbrev pub is_preflop : Street → Bool
is_preflop preflop = true
is_preflop _ = false

-- The cards of a revealed slot.
abbrev pub revealed_cards : HoleSlot → List Card
revealed_cards (revealed hole) = hole.card1 ∷ hole.card2 ∷ []
revealed_cards _ = []

unfoldable pub all_revealed : List HandSeat → List Card
all_revealed [] = []
all_revealed (s ∷ seats) = revealed_cards s.hole ++ all_revealed seats

abbrev pub second_cards : Option BoardCards → List Card
second_cards none = []
second_cards (some b) = all_cards b

-- The cards that the engine holds already.
abbrev pub known_cards : Hand → List Card
known_cards h = all_cards h.board ++ (second_cards h.second_board ++ all_revealed h.seats)

-- The loop of `check_injected_cards_unique` over the cards, with those that are known.
unfoldable pub check_unique : List Card → List Card → Injected (Unit {0})
check_unique known [] = accepted tt
check_unique known (c ∷ cards) =
    let rest = check_unique (c ∷ known) cards in
    if any (card_eq c) known then refused (duplicate_card c) else rest

abbrev pub check_injected_cards_unique : Hand → List Card → Injected (Unit {0})
check_injected_cards_unique h cards = check_unique (known_cards h) cards

-- `inject_board_for_street` once the cards are on the board
abbrev pub after_board : Hand → BoardCards → Injected Hand
after_board h board' =
    let h' = record h { board = board'; pending_board_street = none } in
    if round_is_done h'
    then or_else (close_street_and_advance h') no_board_pending
    else or_else (snapshot h') no_board_pending

abbrev pub place_board : Hand → Street → List Card → Injected Hand
place_board h street cards =
    or_else (set_board_for_street street cards h.board) no_board_pending >>= after_board h

-- The injection at the street that is awaited.
abbrev pub board_at : Hand → List Card → Street → Injected Hand
board_at h cards street =
    guard (not (is_preflop street)) no_board_pending
    >> (guard (length cards == cards_for_street street)
          (wrong_board_count street (cards_for_street street) (length cards))
        >> (check_injected_cards_unique h cards >> place_board h street cards))

unfoldable pub inject_board_for_street : Hand → List Card → Injected Hand
inject_board_for_street h cards =
    guard (is_blind_mode h.mode) not_blind_mode
    >> (or_refuse h.pending_board_street no_board_pending >>= board_at h cards)

abbrev pub same_hole : HoleCards → HoleCards → Bool
same_hole a b = card_eq a.card1 b.card1 && card_eq a.card2 b.card2

-- The player's cards go into the first seat with the id.
unfoldable pub reveal_seat : ℕ → HoleCards → List HandSeat → List HandSeat
reveal_seat player_id hole [] = []
reveal_seat player_id hole (s ∷ seats) =
    let rest = reveal_seat player_id hole seats in
    if s.player_id == player_id then record s { hole = revealed hole } ∷ seats else s ∷ rest

-- The injection at a seat that does not fold.
abbrev pub reveal_checked : Hand → ℕ → HoleCards → Injected Hand
reveal_checked h player_id hole =
    check_injected_cards_unique h (as_array hole)
    >> accepted (record h { seats = reveal_seat player_id hole h.seats })

abbrev pub reveal_slot : Hand → ℕ → HoleCards → HoleSlot → Injected Hand
reveal_slot h player_id hole (revealed existing) =
    if same_hole existing hole then accepted h else refused (already_revealed player_id)
reveal_slot h player_id hole _ = reveal_checked h player_id hole

abbrev pub reveal_at : Hand → ℕ → HoleCards → HandSeat → Injected Hand
reveal_at h player_id hole s =
    guard (not s.folded) (player_is_folded player_id) >> reveal_slot h player_id hole s.hole

abbrev pub seat_of : Hand → ℕ → Option HandSeat
seat_of h player_id = find (λ (s : HandSeat). s.player_id == player_id) h.seats

unfoldable pub inject_showdown_reveal : Hand → ℕ → HoleCards → Injected Hand
inject_showdown_reveal h player_id hole =
    guard (is_blind_mode h.mode) not_blind_mode
    >> (guard (is_done h) not_at_showdown
        >> (or_refuse (seat_of h player_id) (unknown_player player_id)
            >>= reveal_at h player_id hole))

-- `runout_choice_street`
unfoldable pub runout_choice_street : Hand → Option Street
runout_choice_street h = elim h.runout_choice [
  | some choice ↦ none
  | none ↦ elim h.pending_board_street [
    | none ↦ none
    | some street ↦
        if is_blind_mode h.mode
          && (not (is_preflop street) && (round_is_done h && leb 2 (contenders h)))
        then some street
        else none
  ]
]

unfoldable pub choose_runout : Hand → Bool → Injected Hand
choose_runout h twice = do
  street ← or_refuse (runout_choice_street h) runout_choice_closed
  accepted (record h {
    runout_choice = some twice;
    run_twice_from = if twice then some street else h.run_twice_from;
  })

-- The second board: the cards before the street are shared; an index out of bounds panics.
unfoldable pub second_of : Street → List Card → BoardCards → Injected BoardCards
second_of flop (c1 ∷ c2 ∷ c3 ∷ c4 ∷ c5 ∷ cards) b =
    accepted (record { flop_cards = some (c1, c2, c3); turn_card = some c4; river_card = some c5 })
second_of turn (c1 ∷ c2 ∷ cards) b =
    accepted (record b { turn_card = some c1; river_card = some c2 })
second_of river (c ∷ cards) b = accepted (record b { river_card = some c })
second_of preflop cards b = refused no_second_run_pending
second_of _ _ b = crashed

abbrev pub has_second : Hand → Bool
has_second h = elim h.second_board [ none ↦ false | some b ↦ true ]

abbrev pub with_second : Hand → BoardCards → Injected Hand
with_second h second = accepted (record h { second_board = some second })

-- The second run from the street that the choice closed.
abbrev pub second_at : Hand → List Card → Street → Injected Hand
second_at h cards from =
    guard (is_done h && ((board_count h.board == 5) && not (has_second h))) no_second_run_pending
    >> (guard (length cards == second_run_cards_from from)
          (wrong_board_count from (second_run_cards_from from) (length cards))
        >> (check_injected_cards_unique h cards
            >> (second_of from cards h.board >>= with_second h)))

unfoldable pub inject_second_run : Hand → List Card → Injected Hand
inject_second_run h cards = or_refuse h.run_twice_from no_second_run_pending >>= second_at h cards

abbrev pub is_some {ℓ} : {T : Type ℓ} → Option T → Bool
is_some none = false
is_some (some value) = true

-- What `restore_run_twice` asks for before it changes the hand.
abbrev pub is_restorable : Hand → Street → Bool
is_restorable h from = not (
    is_preflop from
    || (not (is_done h)
        || (not (board_count h.board == 5) || (is_some h.run_twice_from || ltb (contenders h) 2))))

-- `restore_run_twice`; what an error leaves is `restore_left`.
unfoldable pub restore_run_twice : Hand → Street → List Card → Injected Hand
restore_run_twice h from cards = do
  guard (is_restorable h from) no_second_run_pending
  inject_second_run (record h { runout_choice = some true; run_twice_from = some from }) cards

-- The hand that a refused `restore_run_twice` leaves: an earlier choice is lost with the new one.
unfoldable pub restore_left : Hand → Street → Hand
restore_left h from =
    if is_restorable h from then record h { runout_choice = none; run_twice_from = none } else h

-- `undealt_board`
unfoldable pub undealt_board : Hand → List Card
undealt_board h =
    if is_blind_mode h.mode || not (is_done h)
    then []
    else let needed = 5 - board_count h.board in
      let left = remaining h.deck in
      take (min needed left) (drop (length h.deck.cards - left) h.deck.cards)

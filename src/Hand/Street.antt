-- ===== src/Hand/Street.antt =====
-- engine/src/game/streets.rs: closing a street and opening the next one.
use bluffking.Prelude.{
  ℕ, zero, suc, ◌+◌, ◌%◌, inl, inr, Bool, true, false, not, ◌&&◌, Option, none, some, List, ◌∷◌,
  ◌++◌, map, leb, ◌==◌, if◌then◌else◌, length, get_elem?, find, position, filter, sum32, add32,
}
use bluffking.Action.{Result, panicked, err, ok, ◌>>=◌, hand_finished}
use bluffking.Card.{Card, Street, preflop, flop, turn, river, BoardCards}
use bluffking.Deck.Deal.{deal_many}
use bluffking.Settle.Seat.{HandSeat, is_in}
use bluffking.Round.State.{PlayerState, BettingRound, player_folded, player_all_in}
use bluffking.Round.Open.{new}
use bluffking.Round.SidePots.{SidePot, side_pots}
use bluffking.Hand.Snapshot.{snapshot}
use bluffking.Hand.State.{
  Hand, betting, HandMode, plaintext_mode, blind_mode, current_street, set_done, round_is_done,
  contenders, cards_for_street,
}

-- `set_board_for_street`; an index out of bounds panics.
unfoldable pub set_board_for_street : Street → List Card → BoardCards → Result BoardCards
set_board_for_street preflop cards b = ok b
set_board_for_street flop (c1 ∷ c2 ∷ c3 ∷ cards) b =
    ok (record b { flop_cards = some (c1, c2, c3) })
set_board_for_street turn (c ∷ cards) b = ok (record b { turn_card = some c })
set_board_for_street river (c ∷ cards) b = ok (record b { river_card = some c })
set_board_for_street _ _ b = panicked

-- `sync_stacks_from_round` on one seat
abbrev pub synced : BettingRound → HandSeat → HandSeat
synced r s = record s {
  stack = elim (find (λ (p : PlayerState). p.player_id == s.player_id) r.players) [
    | none ↦ s.stack
    | some p ↦ p.stack
  ];
  all_in = player_all_in r s.player_id;
  folded = player_folded r s.player_id;
}

unfoldable pub sync_stacks_from_round : Hand → Hand
sync_stacks_from_round h = elim h.betting_round [
  | none ↦ h
  | some r ↦ record h { seats = map (synced r) h.seats }
]

abbrev pub pot_amount : SidePot → ℕ
pot_amount p = p.amount

-- The round's pots go into the hand's; `accumulate_pots` appends them.
unfoldable pub absorb_round : Hand → Hand
absorb_round h = elim h.betting_round [
  | none ↦ h
  | some r ↦
      let pots = side_pots r in
      record h {
        betting_round = none;
        completed_pot = add32 h.completed_pot (sum32 (map pot_amount pots));
        cumulative_side_pots = h.cumulative_side_pots ++ pots;
      }
]

abbrev pub next_street : Street → Option Street
next_street preflop = some flop
next_street flop = some turn
next_street turn = some river
next_street river = none

-- The loop of `first_active_after` over the seats from `start + i` on.
unfoldable pub active_loop : List HandSeat → ℕ → ℕ → ℕ → ℕ
active_loop seats start i zero = start % length seats
active_loop seats start i (suc k) =
    let idx = (start + i) % length seats in
    let rest = active_loop seats start (i + 1) k in
    elim (get_elem? seats idx) [
      | none ↦ rest
      | some s ↦ if not s.folded && not s.all_in then idx else rest
    ]

abbrev pub first_active_after : List HandSeat → ℕ → ℕ
first_active_after seats start = active_loop seats start 0 (length seats)

abbrev pub pending : Street → Option Street → Option Street
pending preflop waiting = waiting
pending street waiting = some street

-- The board of the next street: dealt from the deck, or awaited.
unfoldable pub reveal_street : Street → Hand → Result Hand
reveal_street street h = elim h.mode [
  | plaintext_mode ↦ elim (deal_many (cards_for_street street) h.deck) [
    | inl e ↦ err hand_finished
    | inr (cards, deck') ↦ set_board_for_street street cards h.board >>= λ board'.
        ok (record h { board = board'; deck = deck' })
  ]
  | blind_mode ↦ ok (record h { pending_board_street = pending street h.pending_board_street })
]

-- The players of the next round.
abbrev pub remaining_players : List HandSeat → List (ℕ × ℕ)
remaining_players seats = map (λ (s : HandSeat). (s.player_id, s.stack)) (filter is_in seats)

-- `position(..).unwrap_or(0)`
abbrev pub or_zero : Option ℕ → ℕ
or_zero none = 0
or_zero (some i) = i

-- The round of a street whose board is there or awaited. The table has seats.
unfoldable pub open_round : Street → Hand → Result Hand
open_round street h =
    let n = length h.seats in
    let first = first_active_after h.seats ((h.dealer_idx % n + 1) % n) in
    elim (get_elem? h.seats first) [
      | none ↦ panicked
      | some s ↦
          let players = remaining_players h.seats in
          let first_actor = or_zero (position (λ (p : ℕ × ℕ). p.0 == s.player_id) players) in
          ok (record h {
            phase = betting street;
            betting_round = some (new players first_actor 0 h.big_blind);
          })
    ]

-- The next street of a hand that goes on.
abbrev pub begin_street : Street → Hand → Result Hand
begin_street street h = reveal_street street h >>= open_round street

abbrev pub plaintext : HandMode → Bool
plaintext plaintext_mode = true
plaintext blind_mode = false

abbrev pub is_plaintext : Hand → Bool
is_plaintext h = plaintext h.mode

-- `close_street_and_advance`: with all players all-in a plaintext hand runs on to the end. So many
-- streets at most are closed. A hand that is given is read by `snapshot`.
unfoldable pub close_streets : ℕ → Hand → Result Hand
close_streets zero h = panicked
close_streets (suc fuel) h =
    let h' = absorb_round h in
    if leb (contenders h') 1
    then snapshot (set_done h')
    else elim (next_street (current_street h')) [
      | none ↦ snapshot (set_done h')
      | some street ↦ begin_street street h' >>= λ opened.
          let rest = close_streets fuel opened in
          if is_plaintext opened && round_is_done opened then rest else snapshot opened
    ]

abbrev pub close_street_and_advance : Hand → Result Hand
close_street_and_advance h = close_streets 4 h

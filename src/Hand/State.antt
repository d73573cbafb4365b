-- ===== src/Hand/State.antt =====
-- engine/src/game/mod.rs: GameHand and its queries; the constructors of engine/src/game/start.rs.
use bluffking.Prelude.{
  ℕ, Bool, true, false, Option, none, some, List, [], map, ltb, if◌then◌else◌, count,
}
use bluffking.Card.{Street, preflop, flop, turn, river, BoardCards, empty_board}
use bluffking.Deck.{Deck, from_cards}
use bluffking.Settle.Seat.{HandSeat, HoleSlot, empty_slot, opaque, is_in}
use bluffking.Round.State.{BettingRound}
use bluffking.Round.SidePots.{SidePot}
use bluffking.History.{ActionRecord}

pub data Phase : Type 0 where
  not_started : Phase
  betting : Street → Phase
  finished : Phase

pub data HandMode : Type 0 where
  plaintext_mode blind_mode : HandMode

pub record Hand : Type 0 where
  pub seats : List HandSeat
  pub dealer_idx : ℕ
  pub big_blind : ℕ
  pub small_blind : ℕ
  pub forced_straddle : Option ℕ
  pub bomb_pot : Option ℕ
  pub ante : ℕ
  pub big_blind_ante : ℕ
  pub posted_big_blind_ante : Option (ℕ × ℕ)
  pub preflop_bring_in : ℕ
  pub mode : HandMode
  pub deck : Deck
  pub board : BoardCards
  pub phase : Phase
  pub betting_round : Option BettingRound
  pub completed_pot : ℕ
  pub cumulative_side_pots : List SidePot
  pub actions : List ActionRecord
  pub action_seq : ℕ
  pub pending_board_street : Option Street
  pub finished_street : Option Street
  pub dead_small_blind : Bool
  pub runout_choice : Option Bool
  pub run_twice_from : Option Street
  pub second_board : Option BoardCards

-- A player of the table: id, stack and seat.
abbrev pub seat_with : HoleSlot → ℕ × ℕ × ℕ → HandSeat
seat_with slot (player_id, stack, seat) = record {
  player_id = player_id;
  starting_stack = stack;
  stack = stack;
  hole = slot;
  folded = false;
  all_in = false;
  seat = seat;
}

abbrev pub fresh_hand : HandMode → HoleSlot → List (ℕ × ℕ × ℕ) → ℕ → ℕ → ℕ → Deck → Hand
fresh_hand mode slot players dealer_idx big_blind small_blind deck = record {
  seats = map (seat_with slot) players;
  dealer_idx = dealer_idx;
  big_blind = big_blind;
  small_blind = small_blind;
  forced_straddle = none;
  bomb_pot = none;
  ante = 0;
  big_blind_ante = 0;
  posted_big_blind_ante = none;
  preflop_bring_in = big_blind;
  mode = mode;
  deck = deck;
  board = empty_board;
  phase = not_started;
  betting_round = none;
  completed_pot = 0;
  cumulative_side_pots = [];
  actions = [];
  action_seq = 0;
  pending_board_street = none;
  finished_street = none;
  dead_small_blind = false;
  runout_choice = none;
  run_twice_from = none;
  second_board = none;
}

-- `GameHand::new_with_deck`
abbrev pub new_with_deck : List (ℕ × ℕ × ℕ) → ℕ → ℕ → ℕ → Deck → Hand
new_with_deck = fresh_hand plaintext_mode empty_slot

-- `GameHand::new_blind`
abbrev pub new_blind : List (ℕ × ℕ × ℕ) → ℕ → ℕ → ℕ → Hand
new_blind players dealer_idx big_blind small_blind =
    fresh_hand blind_mode opaque players dealer_idx big_blind small_blind (from_cards [])

-- `(amount.0 > 0).then_some(amount)`
abbrev pub positive : ℕ → Option ℕ
positive amount = if ltb 0 amount then some amount else none

abbrev pub with_forced_straddle : Hand → ℕ → Hand
with_forced_straddle h amount = record h { forced_straddle = positive amount }

abbrev pub with_bomb_pot : Hand → ℕ → Hand
with_bomb_pot h amount = record h { bomb_pot = positive amount }

abbrev pub with_ante : Hand → ℕ → Hand
with_ante h amount = record h { ante = amount }

abbrev pub with_big_blind_ante : Hand → ℕ → Hand
with_big_blind_ante h amount = record h { big_blind_ante = amount }

abbrev pub with_dead_small_blind : Hand → Hand
with_dead_small_blind h = record h { dead_small_blind = true }

abbrev pub phase_done : Phase → Bool
phase_done finished = true
phase_done _ = false

-- `GameHand::is_done`
abbrev pub is_done : Hand → Bool
is_done h = phase_done h.phase

abbrev pub is_blind_mode : HandMode → Bool
is_blind_mode blind_mode = true
is_blind_mode plaintext_mode = false

-- `GameHand::current_street`
unfoldable pub current_street : Hand → Street
current_street h = elim h.phase [
  | not_started ↦ preflop
  | betting s ↦ s
  | finished ↦ elim h.finished_street [ none ↦ preflop | some s ↦ s ]
]

-- `GameHand::set_done`
unfoldable pub set_done : Hand → Hand
set_done h = record h { finished_street = some (current_street h); phase = finished }

-- `self.betting_round.as_ref().map(|r| r.is_done()).unwrap_or(false)`
abbrev pub round_is_done : Hand → Bool
round_is_done h = elim h.betting_round [ none ↦ false | some r ↦ r.done ]

-- `seats.iter().filter(|s| !s.folded).count()`
abbrev pub contenders : Hand → ℕ
contenders h = count is_in h.seats

-- `cards_for_street`
abbrev pub cards_for_street : Street → ℕ
cards_for_street preflop = 0
cards_for_street flop = 3
cards_for_street turn = 1
cards_for_street river = 1

-- `second_run_cards_from`
abbrev pub second_run_cards_from : Street → ℕ
second_run_cards_from preflop = 0
second_run_cards_from flop = 5
second_run_cards_from turn = 2
second_run_cards_from river = 1

-- `second_run_pending`
abbrev pub second_run_pending : Hand → Bool
second_run_pending h = elim h.run_twice_from [
  | none ↦ false
  | some s ↦ elim h.second_board [ none ↦ true | some b ↦ false ]
]

-- `second_run_card_count`
abbrev pub second_run_card_count : Hand → ℕ
second_run_card_count h = elim h.run_twice_from [ none ↦ 0 | some s ↦ second_run_cards_from s ]

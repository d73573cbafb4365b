-- ===== src/Hand/Start.antt =====
-- engine/src/game/start.rs and engine/src/game/mod.rs: the start of a hand.
use bluffking.Prelude.{
  ℕ, ◌+◌, ◌-◌, ◌%◌, min, inl, inr, not, ◌&&◌, ◌||◌, Option, none, some, List, [], ◌∷◌, ◌++◌, map,
  ltb, leb, if◌then◌else◌, length, sum, add32, saturating_add,
}
use bluffking.Action.{
  Result, panicked, err, ok, ◌>>=◌, ◌>>◌, guard, blind, BlindKind, small, big, straddle,
  not_in_hand, hand_finished, invalid_action,
}
use bluffking.Card.{Card, preflop}
use bluffking.Deck.Deal.{deal_many}
use bluffking.Settle.Seat.{HandSeat, plain}
use bluffking.Round.State.{BettingRound}
use bluffking.Round.Open.{new_preflop}
use bluffking.Hand.Snapshot.{snapshot}
use bluffking.Hand.State.{Hand, betting, plaintext_mode, blind_mode}
use bluffking.Hand.Street.{sync_stacks_from_round, close_street_and_advance}
use bluffking.Hand.Act.{next_seq}
unfoldable pub use bluffking.Hand.Antes.{
  blind_positions, forced_blind_positions, collect_antes, post_big_blind_ante,
}
pub use bluffking.Hand.Antes.{
  is_unstarted, is_set, ante_amount, all_ids, ante_of, pay_ante, seat_at,
}

-- The record of a forced bet.
abbrev pub record_blind : BlindKind → HandSeat → ℕ → ℕ → ℕ → Hand → Hand
record_blind kind s amount pot_before pot_after h = record h {
  actions =
      h.actions
      ++ (record {
        seq = h.action_seq;
        street = preflop;
        player_id = s.player_id;
        action = blind kind amount;
        amount = amount;
        stack_before = s.stack;
        stack_after = s.stack - amount;
        pot_before = pot_before;
        pot_after = pot_after;
      }
          ∷ []);
  action_seq = next_seq h.action_seq;
}

-- The two cards of each seat.
unfoldable pub hand_out : List HandSeat → List Card → List Card → Result (List HandSeat)
hand_out [] first second = ok []
hand_out (s ∷ seats) (c ∷ first) (d ∷ second) = hand_out seats first second >>= λ rest.
    ok (record s { hole = plain (record { card1 = c; card2 = d }) } ∷ rest)
hand_out (s ∷ seats) _ _ = panicked

-- `deal_hole_cards`: two passes over the seats; nothing in a blind hand.
unfoldable pub deal_hole_cards : Hand → Result Hand
deal_hole_cards h = elim h.mode [
  | blind_mode ↦ ok h
  | plaintext_mode ↦ elim (deal_many (length h.seats) h.deck) [
    | inl e ↦ err hand_finished
    | inr (first, deck1) ↦ elim (deal_many (length h.seats) deck1) [
      | inl e ↦ err hand_finished
      | inr (second, deck2) ↦
          hand_out h.seats first second >>= λ seats'. ok (record h { seats = seats'; deck = deck2 })
    ]
  ]
]

-- A straddle that is posted.
pub record Straddle : Type 0 where
  pub idx : ℕ
  pub player_id : ℕ
  pub posted : ℕ
  pub requested : ℕ

-- The seats and amounts of the forced bets.
pub record ForcedBets : Type 0 where
  pub small_seat : Option HandSeat
  pub big_seat : HandSeat
  pub bb_idx : ℕ
  pub straddle : Option Straddle

abbrev pub small_amount : Hand → Option HandSeat → ℕ
small_amount h none = 0
small_amount h (some s) = min h.small_blind s.stack

abbrev pub big_amount : Hand → HandSeat → ℕ
big_amount h s = min h.big_blind s.stack

abbrev pub record_small : Option HandSeat → ℕ → Hand → Hand
record_small none total h = h
record_small (some s) total h =
    let amount = min h.small_blind s.stack in
    record_blind small s amount total (add32 total amount) h

abbrev pub record_big : HandSeat → ℕ → Hand → Hand
record_big s total h =
    let amount = big_amount h s in record_blind big s amount total (add32 total amount) h

-- The seat of the small blind, unless it is dead.
abbrev pub optional_seat : Hand → Option ℕ → Result (Option HandSeat)
optional_seat h none = ok none
optional_seat h (some idx) = seat_at h idx >>= λ s. ok (some s)

abbrev pub straddle_amount : Hand → Option ℕ
straddle_amount h = if leb 3 (length h.seats) then h.forced_straddle else none

abbrev pub straddle_from :
    Hand → (idx pot_before requested : ℕ) → HandSeat → Result (Hand × Option Straddle)
straddle_from h idx pot_before requested s =
    let amount = min requested s.stack in
    ok (
      record_blind straddle s amount pot_before (saturating_add pot_before amount) h,
      some (record { idx = idx; player_id = s.player_id; posted = amount; requested = requested }),
    )

-- The straddle is recorded after the two blinds.
abbrev pub post_straddle : ℕ → ℕ → Hand → Result (Hand × Option Straddle)
post_straddle bb_idx pot_before h = elim (straddle_amount h) [
  | none ↦ ok (h, none)
  | some requested ↦
      let idx = (bb_idx + 1) % length h.seats in
      seat_at h idx >>= straddle_from h idx pot_before requested
]

abbrev pub forced_bets :
    ℕ → Option HandSeat → HandSeat → Hand × Option Straddle → Result (Hand × ForcedBets)
forced_bets bb_idx small_seat big_seat (h, extra) =
    ok (
      h,
      record { small_seat = small_seat; big_seat = big_seat; bb_idx = bb_idx; straddle = extra },
    )

abbrev pub forced_big : ℕ → Hand × ℕ → Option HandSeat → HandSeat → Result (Hand × ForcedBets)
forced_big bb_idx (h, total) small_seat big_seat =
    let after_small = add32 total (small_amount h small_seat) in
    let blinds = record_big big_seat after_small (record_small small_seat total h) in
    let pot_before =
      saturating_add (saturating_add total (small_amount h small_seat)) (big_amount h big_seat) in
    post_straddle bb_idx pot_before blinds >>= forced_bets bb_idx small_seat big_seat

abbrev pub forced_small : ℕ → Hand × ℕ → Option HandSeat → Result (Hand × ForcedBets)
forced_small bb_idx (h, total) small_seat =
    seat_at h bb_idx >>= forced_big bb_idx (h, total) small_seat

-- All forced bets are recorded; the round posts them later.
abbrev pub post_forced : Option ℕ → ℕ → Hand × ℕ → Result (Hand × ForcedBets)
post_forced sb_idx bb_idx (h, total) = optional_seat h sb_idx >>= forced_small bb_idx (h, total)

abbrev pub small_post : Hand → Option HandSeat → List (ℕ × ℕ)
small_post h none = []
small_post h (some s) = (s.player_id, min h.small_blind s.stack) ∷ []

abbrev pub straddle_post : Option Straddle → List (ℕ × ℕ)
straddle_post none = []
straddle_post (some s) = (s.player_id, s.posted) ∷ []

-- The bets that the round posts.
abbrev pub posts : Hand → ForcedBets → List (ℕ × ℕ)
posts h b =
    small_post h b.small_seat
    ++ ((b.big_seat.player_id, big_amount h b.big_seat) ∷ straddle_post b.straddle)

-- Left of the straddle, or of the big blind.
abbrev pub first_to_act : ForcedBets → ℕ → ℕ
first_to_act b n = elim b.straddle [ none ↦ (b.bb_idx + 1) % n | some s ↦ (s.idx + 1) % n ]

-- A straddle that is paid in full is the opening bet.
abbrev pub bring_in : Hand → ForcedBets → ℕ
bring_in h b = elim b.straddle [
  | none ↦ h.big_blind
  | some s ↦ if leb s.requested s.posted then s.requested else h.big_blind
]

-- The players of the first round, with the stacks before the blinds.
abbrev pub preflop_players : List HandSeat → List (ℕ × ℕ)
preflop_players = map (λ (s : HandSeat). (s.player_id, s.stack))

abbrev pub preflop_round : ForcedBets → Hand → BettingRound
preflop_round b h =
    new_preflop (preflop_players h.seats) (first_to_act b (length h.seats)) (posts h b)
      (bring_in h b)

-- The first round of betting, after the cards are dealt.
unfoldable pub open_preflop : ForcedBets → Hand → Result Hand
open_preflop b h =
    let r = preflop_round b h in
    let h' = sync_stacks_from_round (record h {
      preflop_bring_in = bring_in h b;
      phase = betting preflop;
      betting_round = some r;
    }) in
    if r.done then close_street_and_advance h' else snapshot h'

abbrev pub skip_preflop : Hand → Result Hand
skip_preflop dealt = close_street_and_advance (record dealt { phase = betting preflop })

-- `start_bomb_pot`
abbrev pub start_bomb_pot : Hand → Result Hand
start_bomb_pot h = deal_hole_cards h >>= skip_preflop

abbrev pub deal_and_open : Hand × ForcedBets → Result Hand
deal_and_open (h, b) = deal_hole_cards h >>= open_preflop b

abbrev pub blinds_from : Option ℕ → ℕ → Hand × ℕ → HandSeat → Result Hand
blinds_from sb_idx bb_idx (h, total) bb =
    post_forced sb_idx bb_idx (post_big_blind_ante bb_idx (h, total) bb) >>= deal_and_open

-- `start` of an ordinary hand, after the antes
abbrev pub start_blinds : Hand × ℕ → Result Hand
start_blinds (h, total) =
    let (sb_idx, bb_idx) = forced_blind_positions h (length h.seats) in
    seat_at h bb_idx >>= blinds_from sb_idx bb_idx (h, total)

abbrev pub start_paid : Hand × ℕ → Result Hand
start_paid (h, total) = if is_set h.bomb_pot then start_bomb_pot h else start_blinds (h, total)

abbrev pub table_total : Hand → ℕ
table_total h = sum (map (λ (s : HandSeat). s.starting_stack) h.seats)

-- `GameHand::start`
unfoldable pub start : Hand → Result Hand
start h =
    guard (is_unstarted h.phase) hand_finished
    >> (guard (leb (table_total h) 4294967295) invalid_action
        >> (guard (leb 2 (length h.seats)) not_in_hand
            >> (guard (not (ltb 0 h.big_blind_ante && (ltb 0 h.ante || is_set h.bomb_pot)))
                  invalid_action
                >> start_paid (collect_antes h))))

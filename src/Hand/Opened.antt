-- ===== src/Hand/Opened.antt =====
-- engine/src/game/streets.rs: the next street can be opened.
use bluffking.Prelude.{
  ℕ, zero, suc, ◌+◌, ◌%◌, ◌≤◌, ◌<◌, ◌≡◌, refl, sym, ap, subst, ◌∙◌, ◌⊎◌, inl, inr, true, not, ◌&&◌,
  some, List, [], ◌∷◌, arith, ◌==◌, Bool-cases, Option-cases, length, get_elem?, position,
  get-in_range,
}
use bluffking.Action.{Result, err, ok, ◌>>=◌, hand_finished}
use bluffking.Card.{Card, Street, preflop, flop, turn, river, BoardCards}
use bluffking.Deck.{Deck, DeckError, deal}
use bluffking.Deck.Deal.{deal_many}
use bluffking.Settle.Seat.{HandSeat}
use bluffking.Round.Open.{new}
use bluffking.Hand.Snapshot.{actor_read, actor_read-HasTurn, new-HasTurn}
use bluffking.Hand.State.{Hand, betting, HandMode, plaintext_mode, blind_mode, cards_for_street}
use bluffking.Hand.Street.{
  set_board_for_street, active_loop, first_active_after, reveal_street, remaining_players, or_zero,
  pending, open_round, begin_street,
}

Sum-cases :
    {E T : Type 0} (x : E ⊎ (T × Deck))
    → ((e : E) × (x ≡ inl e)) ⊎ ((t : T) × (d : Deck) × (x ≡ inr (t, d)))
Sum-cases (inl e) = inl (e, refl)
Sum-cases (inr (t, d)) = inr (t, d, refl)

-- As many cards as were asked for are dealt, unless the deck is exhausted.
deal_many-length :
    (n : ℕ) (d : Deck)
    → ((e : DeckError) × (deal_many n d ≡ inl e))
      ⊎ ((cards : List Card) × (d' : Deck) × (deal_many n d ≡ inr (cards, d')) × (length cards ≡ n))
unfolding deal_many
deal_many-length zero d = inr ([], d, refl, refl)
deal_many-length (suc n) d = elim (Sum-cases (deal d)) [
  | inl (e, failed) ↦ inl (e, rw (deal_many, failed) refl)
  | inr (c, d1, dealt) ↦ elim (deal_many-length n d1) [
    | inl (e, failed) ↦ inl (e, rw (deal_many, dealt) (rw failed refl))
    | inr (cards, d2, rest, counted) ↦
        inr (c ∷ cards, d2, rw (deal_many, dealt) (rw rest refl), omega (arith, counted))
  ]
]

-- The cards of a street can be put on the board.
set_board-total :
    (street : Street) (cards : List Card) (b : BoardCards)
    → length cards ≡ cards_for_street street
    → (b' : BoardCards) × (set_board_for_street street cards b ≡ ok b')
unfolding set_board_for_street
set_board-total preflop cards b e = (b, refl)
set_board-total flop (c1 ∷ c2 ∷ c3 ∷ cards) b e =
    (record b { flop_cards = some (c1, c2, c3) }, refl)
set_board-total flop (c1 ∷ c2 ∷ []) b e = absurd (omega (arith, e))
set_board-total flop (c1 ∷ []) b e = absurd (omega (arith, e))
set_board-total flop [] b e = absurd (omega (arith, e))
set_board-total turn (c ∷ cards) b e = (record b { turn_card = some c }, refl)
set_board-total turn [] b e = absurd (omega (arith, e))
set_board-total river (c ∷ cards) b e = (record b { river_card = some c }, refl)
set_board-total river [] b e = absurd (omega (arith, e))

active_loop-bound :
    (seats : List HandSeat) (start i k : ℕ)
    → 1 ≤ length seats
    → active_loop seats start i k < length seats
unfolding active_loop
active_loop-bound seats start i zero some_seat = omega (arith, some_seat)
active_loop-bound seats start i (suc k) some_seat =
    let idx = (start + i) % length seats in
    let rest = active_loop-bound seats start (i + 1) k some_seat in
    elim (Option-cases (get_elem? seats idx)) [
      | inl missing ↦ rw (active_loop, missing) rest
      | inr (s, there) ↦ elim (Bool-cases (not s.folded && not s.all_in)) [
        | inl active ↦ rw (active_loop, there) (rw active (omega (arith, some_seat)))
        | inr idle ↦ rw (active_loop, there) (rw idle rest)
      ]
    ]

-- A hand as it is left by what opens a street.
abbrev pub Kept : Hand → Hand → Type 0
Kept h h' = (h'.seats ≡ h.seats) × (h'.mode ≡ h.mode)

open_round-total :
    (street : Street) (h : Hand)
    → 1 ≤ length h.seats
    → (h' : Hand) × (open_round street h ≡ ok h')
      × (h'.phase ≡ betting street)
      × (actor_read h' ≡ true)
      × Kept h h'
unfolding open_round
open_round-total street h some_seat =
    let n = length h.seats in
    let start = (h.dealer_idx % n + 1) % n in
    let first = first_active_after h.seats start in
    let players = remaining_players h.seats in
    let (s, there) = get-in_range h.seats first (active_loop-bound h.seats start 0 n some_seat) in
    let first_actor = or_zero (position (λ (p : ℕ × ℕ). p.0 == s.player_id) players) in
    let r = new players first_actor 0 h.big_blind in
    let opened : Hand = record h { phase = betting street; betting_round = some r } in
    let turn = new-HasTurn players first_actor 0 h.big_blind in
    (
      opened,
      simp (open_round, there) refl,
      refl,
      actor_read-HasTurn opened r refl turn,
      (refl, refl),
    )

-- A plaintext hand whose deck is exhausted.
abbrev pub Exhausted : {A : Type 0} → Hand → Result A → Type 0
Exhausted h out = (out ≡ err hand_finished) × (h.mode ≡ plaintext_mode)

mode-cases : (mode : HandMode) → (mode ≡ plaintext_mode) ⊎ (mode ≡ blind_mode)
mode-cases plaintext_mode = inl refl
mode-cases blind_mode = inr refl

reveal_street-total :
    (street : Street) (h : Hand)
    → Exhausted h (reveal_street street h)
      ⊎ ((h' : Hand) × (reveal_street street h ≡ ok h') × Kept h h')
unfolding reveal_street
reveal_street-total street h = elim (mode-cases h.mode) [
  | inr blind ↦ inr (
    record h { pending_board_street = pending street h.pending_board_street },
    simp (reveal_street, blind) refl,
    (refl, refl),
  )
  | inl plain ↦ elim (deal_many-length (cards_for_street street) h.deck) [
    | inl (e, failed) ↦ inl (simp (reveal_street, plain, failed) refl, plain)
    | inr (cards, deck', dealt, counted) ↦
        let (board', set) = set_board-total street cards h.board counted in
        inr (
          record h { board = board'; deck = deck' },
          simp (reveal_street, plain, dealt, set) refl,
          (refl, refl),
        )
  ]
]

pub begin_street-total :
    (street : Street) (h : Hand)
    → 1 ≤ length h.seats
    → Exhausted h (begin_street street h)
      ⊎ ((h' : Hand) × (begin_street street h ≡ ok h')
          × (h'.phase ≡ betting street)
          × (actor_read h' ≡ true)
          × Kept h h')
begin_street-total street h some_seat = elim (reveal_street-total street h) [
  | inl (failed, plain) ↦ inl (ap (λ x. x >>= open_round street) failed, plain)
  | inr (shown, first, kept) ↦
      let (opened, second, phase, known, kept') =
        open_round-total street shown (subst (λ x. 1 ≤ length x) (sym kept.0) some_seat) in
      inr (
        opened,
        ap (λ x. x >>= open_round street) first ∙ second,
        phase,
        known,
        (kept'.0 ∙ kept.0, kept'.1 ∙ kept.1),
      )
]

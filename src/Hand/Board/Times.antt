-- ===== src/Hand/Board/Times.antt =====
-- engine/src/game/streets.rs: how often a card is among the cards of a blind hand.
use bluffking.Prelude.{
  ℕ, ◌+◌, ◌≤◌, ◌≡◌, refl, subst, ◌⊎◌, inl, inr, Bool, true, false, some, List, [], ◌∷◌, ◌++◌, arith,
  ◌==◌, Bool-cases, any, count,
}
use bluffking.Action.{ok, ok-injective}
use bluffking.Card.{
  Card, card_eq, Street, preflop, flop, turn, river, HoleCards, as_array, BoardCards, all_cards,
  flop_list, street_list,
}
use bluffking.Settle.Seat.{HandSeat}
use bluffking.Hand.Street.{set_board_for_street}
use bluffking.Hand.Board.{
  accepted, accepted-injective, revealed_cards, all_revealed, check_unique, reveal_seat, second_of,
}

abbrev pub times_in : Card → List Card → ℕ
times_in c = count (card_eq c)

pub count-append {ℓ} :
    {A : Type ℓ} (p : A → Bool) (xs ys : List A) → count p (xs ++ ys) ≡ count p xs + count p ys
unfolding count
count-append p [] ys = omega arith
count-append p (x ∷ xs) ys = omega (arith, count-append p xs ys)

card_eq_sym : (c d : Card) → card_eq c d ≡ true → card_eq d c ≡ true
card_eq_sym c d e = ground (arith, e)

card_eq_trans : (c d e : Card) → card_eq c d ≡ true → card_eq d e ≡ true → card_eq c e ≡ true
card_eq_trans c d e h k = ground (arith, h, k)

-- A card that equals none of a list is not in it, whichever equal card is asked for.
any-times_in :
    (c d : Card) (xs : List Card)
    → any (card_eq d) xs ≡ false
    → card_eq c d ≡ true
    → times_in c xs ≡ 0
unfolding any count
any-times_in c d [] h e = refl
any-times_in c d (x ∷ xs) h e = elim (Bool-cases (card_eq c x)) [
  | inl hit ↦
      let back = card_eq_trans d c x (card_eq_sym c d e) hit in absurd (ground (arith, h, back))
  | inr miss ↦ let rest = any-times_in c d xs (ground (arith, h)) e in rw miss (omega (arith, rest))
]

-- Cards that pass the check are new and different from each other.
pub check_unique-times_in :
    (known cards : List Card)
    → check_unique known cards ≡ accepted tt
    → (c : Card) → (times_in c cards ≤ 1) × ((times_in c cards ≡ 0) ⊎ (times_in c known ≡ 0))
unfolding check_unique count
check_unique-times_in known [] h c = (omega arith, inl refl)
check_unique-times_in known (x ∷ cards) h c = elim (Bool-cases (any (card_eq x) known)) [
  | inl seen ↦ absurd (ground (arith, rw seen at h))
  | inr fresh ↦
      let rest : check_unique (x ∷ known) cards ≡ accepted tt = rw fresh at h in
      let (once, apart) = check_unique-times_in (x ∷ known) cards rest c in
      elim (Bool-cases (card_eq c x)) [
        | inl equal ↦
            let gone = any-times_in c x known fresh equal in
            let none_left : times_in c cards ≡ 0 = elim apart [
              | inl e ↦ e
              | inr e ↦
                  let e' : 1 + times_in c known ≡ 0 = rw equal at e in absurd (omega (arith, e'))
            ] in
            rw equal (omega (arith, none_left), inr gone)
        | inr other ↦
            let apart' : (0 + times_in c cards ≡ 0) ⊎ (times_in c known ≡ 0) = elim apart [
              | inl e ↦ inl (omega (arith, e))
              | inr e ↦ let e' : 0 + times_in c known ≡ 0 = rw other at e in inr (omega (arith, e'))
            ] in
            rw other (omega (arith, once), apart')
      ]
]

all_cards-times_in :
    (c : Card) (b : BoardCards)
    → times_in c (all_cards b)
      ≡ times_in c (flop_list b.flop_cards)
        + (times_in c (street_list b.turn_card) + times_in c (street_list b.river_card))
unfolding all_cards
all_cards-times_in c b =
    let early = flop_list b.flop_cards ++ street_list b.turn_card in
    let first = count-append (card_eq c) (flop_list b.flop_cards) (street_list b.turn_card) in
    let last = count-append (card_eq c) early (street_list b.river_card) in
    omega (arith, first, last)

-- What a board has at most: the cards of another one, and of a list.
abbrev Within : Card → List Card → BoardCards → BoardCards → Type 0
Within c cards b b' = times_in c (all_cards b') ≤ times_in c (all_cards b) + times_in c cards

-- A street's cards replace what the board had there, so that no card is there more often than before
-- and in the street's cards together.
pub set_board-times_in :
    (street : Street) (cards : List Card) (b b' : BoardCards) (c : Card)
    → set_board_for_street street cards b ≡ ok b'
    → Within c cards b b'
unfolding set_board_for_street
set_board-times_in preflop cards b b' c e = subst (Within c cards b) (ok-injective e) (omega arith)
set_board-times_in flop (c1 ∷ c2 ∷ c3 ∷ cards) b b' c e =
    let set : BoardCards = record b { flop_cards = some (c1, c2, c3) } in
    let parts = count-append (card_eq c) (c1 ∷ c2 ∷ c3 ∷ []) cards in
    subst (Within c (c1 ∷ c2 ∷ c3 ∷ cards) b) (ok-injective e)
      (omega (arith, parts, all_cards-times_in c b, all_cards-times_in c set))
set_board-times_in flop (c1 ∷ c2 ∷ []) b b' c e = cc
set_board-times_in flop (c1 ∷ []) b b' c e = cc
set_board-times_in flop [] b b' c e = cc
set_board-times_in turn (c1 ∷ cards) b b' c e =
    let set : BoardCards = record b { turn_card = some c1 } in
    let parts = count-append (card_eq c) (c1 ∷ []) cards in
    subst (Within c (c1 ∷ cards) b) (ok-injective e)
      (omega (arith, parts, all_cards-times_in c b, all_cards-times_in c set))
set_board-times_in turn [] b b' c e = cc
set_board-times_in river (c1 ∷ cards) b b' c e =
    let set : BoardCards = record b { river_card = some c1 } in
    let parts = count-append (card_eq c) (c1 ∷ []) cards in
    subst (Within c (c1 ∷ cards) b) (ok-injective e)
      (omega (arith, parts, all_cards-times_in c b, all_cards-times_in c set))
set_board-times_in river [] b b' c e = cc

-- The second board has the shared cards and the second run's.
pub second_of-times_in :
    (street : Street) (cards : List Card) (b b' : BoardCards) (c : Card)
    → second_of street cards b ≡ accepted b'
    → Within c cards b b'
unfolding second_of
second_of-times_in preflop cards b b' c e = cc
second_of-times_in flop (c1 ∷ c2 ∷ c3 ∷ c4 ∷ c5 ∷ cards) b b' c e =
    let set : BoardCards = record {
      flop_cards = some (c1, c2, c3);
      turn_card = some c4;
      river_card = some c5;
    } in
    let parts = count-append (card_eq c) (c1 ∷ c2 ∷ c3 ∷ c4 ∷ c5 ∷ []) cards in
    let last = count-append (card_eq c) (c1 ∷ c2 ∷ c3 ∷ []) (c4 ∷ c5 ∷ []) in
    let river_last = count-append (card_eq c) (c4 ∷ []) (c5 ∷ []) in
    subst (Within c (c1 ∷ c2 ∷ c3 ∷ c4 ∷ c5 ∷ cards) b) (accepted-injective e)
      (omega (arith, parts, last, river_last, all_cards-times_in c set))
second_of-times_in flop (c1 ∷ c2 ∷ c3 ∷ c4 ∷ []) b b' c e = cc
second_of-times_in flop (c1 ∷ c2 ∷ c3 ∷ []) b b' c e = cc
second_of-times_in flop (c1 ∷ c2 ∷ []) b b' c e = cc
second_of-times_in flop (c1 ∷ []) b b' c e = cc
second_of-times_in flop [] b b' c e = cc
second_of-times_in turn (c1 ∷ c2 ∷ cards) b b' c e =
    let set : BoardCards = record b { turn_card = some c1; river_card = some c2 } in
    let parts = count-append (card_eq c) (c1 ∷ c2 ∷ []) cards in
    let last = count-append (card_eq c) (c1 ∷ []) (c2 ∷ []) in
    subst (Within c (c1 ∷ c2 ∷ cards) b) (accepted-injective e)
      (omega (arith, parts, last, all_cards-times_in c b, all_cards-times_in c set))
second_of-times_in turn (c1 ∷ []) b b' c e = cc
second_of-times_in turn [] b b' c e = cc
second_of-times_in river (c1 ∷ cards) b b' c e =
    let set : BoardCards = record b { river_card = some c1 } in
    let parts = count-append (card_eq c) (c1 ∷ []) cards in
    subst (Within c (c1 ∷ cards) b) (accepted-injective e)
      (omega (arith, parts, all_cards-times_in c b, all_cards-times_in c set))
second_of-times_in river [] b b' c e = cc

-- What a seat shows goes into the list of what all seats show.
pub reveal_seat-times_in :
    (player_id : ℕ) (hole : HoleCards) (seats : List HandSeat) (c : Card)
    → times_in c (all_revealed (reveal_seat player_id hole seats))
      ≤ times_in c (all_revealed seats) + times_in c (as_array hole)
unfolding reveal_seat all_revealed as_array
reveal_seat-times_in player_id hole [] c = omega arith
reveal_seat-times_in player_id hole (s ∷ seats) c =
    let rest = reveal_seat-times_in player_id hole seats c in
    let old = count-append (card_eq c) (revealed_cards s.hole) (all_revealed seats) in
    let skipped = reveal_seat player_id hole seats in
    let kept = count-append (card_eq c) (revealed_cards s.hole) (all_revealed skipped) in
    let shown = count-append (card_eq c) (as_array hole) (all_revealed seats) in
    elim (Bool-cases (s.player_id == player_id)) [
      | inl here ↦ rw here (omega (arith, old, shown))
      | inr elsewhere ↦ rw elsewhere (omega (arith, old, kept, rest))
    ]

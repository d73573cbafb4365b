-- ===== src/Draw/Zjh.antt =====
-- draw-games/verifier/src/zjh.rs: the deck of a Zha Jin Hua hand, its committed roster, the cards
-- dealt, and the check of a published proof.
pub mod Id
pub mod Deck
pub mod Codes
pub mod Dealt
pub mod Distinct
pub mod Verify
use bluffking.Prelude.{
  ℕ, zero, suc, ◌+◌, ◌-◌, ◌*◌, ◌/◌, ◌%◌, ◌≤◌, ◌<◌, min, max, ◌≡◌, refl, sym, ap, subst, ◌∙◌, ◌≢◌,
  ◌↔◌, ◌⊎◌, inl, inr, Bool, true, false, not, ◌&&◌, ◌||◌, Option, none, some, List, [], ◌∷◌, ◌++◌,
  map, ℤ, pos, negsuc, negate, within, same_int, same_int-eq, same_int_self, arith, ltb, leb, ◌==◌,
  if◌then◌else◌, if-elim, Bool-cases, Option-cases, ==_iff, ==_self, length, get_elem?, All,
  length-append, keep, length-map, All-append, All-if, modify, find, position, any, all, filter,
  count, sum_by, drop, drop-get, rotate, take-all, length-drop, count-rotate, map-filter-IsNodup,
  sort_by-All, IsSorted, sort_by-IsSorted, filter-sort_by, take_while-filter, take, take_while,
  map-sort_by-IsNodup, map-take_while-IsNodup, contains-map-sort_by, contains-map-take_while,
  sum_by-add, get-in_range, get-bound, position-get, position-any, count-modify, length-modify,
  get_elem?-modify_ne, get_elem?-modify_self, sort, dedup, sum32, sum, IsAscending, Occurs,
  sum32-eq, sort-IsAscending, sort-Occurs, dedup-IsAscending, dedup-Occurs, insert_by, sort_by,
  contains, sum_by-sort_by, length-sort_by, IsNodup, contains-sort_by, sort_by-IsNodup, sum_by-take,
  sum_by-const, sum_by-map, add32, sub32, u32_mod, saturating_add, add32-eq, sub32-eq,
}
use bluffking.Deck.{swap}
use bluffking.Draw.{
  Outcome, panicked, starved, err, ok, ◌>>=◌, ◌>>◌, guard, or_refuse, or_panic, same, codes,
  wrong_game, wrong_kind, bad_draw_id, seats_differ, nothing_disclosed, cards_mismatch,
}
use bluffking.Draw.Text.{to_string, join, split, split_once, parse_usize}
use bluffking.Draw.Proof.{Crates, Reveal, Entropy, entropy, below}

abbrev pub ranks : List ℕ
ranks = codes "23456789TJQKA"

abbrev pub suits : List ℕ
suits = codes "shcd"

-- Canonical deck index to wire code
unfoldable pub code : ℕ → Outcome (List ℕ)
code index = do
  rank ← or_panic (get_elem? ranks (index % 13))
  suit ← or_panic (get_elem? suits (index / 13))
  ok (rank ∷ suit ∷ [])

-- `(from..from + len).collect()`
unfoldable pub range : ℕ → ℕ → List ℕ
range from zero = []
range from (suc len) = from ∷ range (from + 1) len

module _ (crates : Crates) (fuel : ℕ) where
  -- The Fisher-Yates loop from index `i` down to 1.
  unfoldable pub shuffle_deck : Entropy → ℕ → List ℕ → Outcome (List ℕ)
  shuffle_deck e zero deck = ok deck
  shuffle_deck e (suc i) deck = below crates fuel e (suc i + 1) >>= λ (j : ℕ × Entropy).
      or_panic (swap deck (suc i) j.0) >>= λ deck'. shuffle_deck j.1 i deck'

  unfoldable pub deck : Reveal → Outcome (List ℕ)
  deck r =
      guard (same r.commitment.game (codes "zjh")) wrong_game
      >> (entropy crates r >>= λ e. shuffle_deck e 51 (range 0 52))

-- `[String; 3]`
pub record Hand : Type 0 where
  pub first : List ℕ
  pub second : List ℕ
  pub third : List ℕ

pub record SeatHand : Type 0 where
  pub seat : ℕ
  pub cards : Option Hand

pub record ZjhProof : Type 0 where
  pub kind : List ℕ
  pub reveal : Reveal
  pub hands : List SeatHand

-- `seats.windows(2).all(|w| w[0] < w[1])`
unfoldable pub ascending : List ℕ → Bool
ascending [] = true
ascending (a ∷ []) = true
ascending (a ∷ b ∷ seats) = ltb a b && ascending (b ∷ seats)

unfoldable pub valid_seats : List ℕ → Bool
valid_seats seats =
    (leb 2 (length seats) && leb (length seats) 10)
    && (ascending seats && all (λ s. ltb s 10) seats)

unfoldable pub draw_id : List ℕ → List ℕ → Outcome (List ℕ)
draw_id hand_id seats =
    guard (not ((length hand_id == 0) || (contains b':' hand_id || not (valid_seats seats))))
      bad_draw_id
    >> ok (hand_id ++ (b':' ∷ join b',' (map to_string seats)))

abbrev pub is_digit : ℕ → Bool
is_digit b = leb b'0' b && leb b b'9'

abbrev pub starts_with : ℕ → List ℕ → Bool
starts_with c [] = false
starts_with c (d ∷ text) = c == d

-- The closure of `parse_draw_id` on one part
unfoldable pub parse_seat : List ℕ → Outcome ℕ
parse_seat s =
    guard
      (not ((length s == 0) || ((ltb 1 (length s) && starts_with b'0' s) || not (all is_digit s))))
      bad_draw_id
    >> or_refuse (parse_usize s) bad_draw_id

-- `collect::<Result<Vec<usize>, _>>`
unfoldable pub parse_seats : List (List ℕ) → Outcome (List ℕ)
parse_seats [] = ok []
parse_seats (s ∷ parts) = do seat ← parse_seat s; seats ← parse_seats parts; ok (seat ∷ seats)

-- `parse_draw_id` after its parts are read
abbrev pub check_roster : List ℕ → List ℕ → Outcome (List ℕ × List ℕ)
check_roster hand_id seats =
    guard (not ((length hand_id == 0) || not (valid_seats seats))) bad_draw_id
    >> ok (hand_id, seats)

unfoldable pub parse_draw_id : List ℕ → Outcome (List ℕ × List ℕ)
parse_draw_id id = or_refuse (split_once b':' id) bad_draw_id >>= λ (x : List ℕ × List ℕ).
    parse_seats (split b',' x.1) >>= check_roster x.0

-- The three codes from a place of the deck on
unfoldable pub hand_at : List ℕ → ℕ → Outcome Hand
hand_at d i = do
  a ← or_panic (get_elem? d (i * 3)) >>= code
  b ← or_panic (get_elem? d (i * 3 + 1)) >>= code
  c ← or_panic (get_elem? d (i * 3 + 2)) >>= code
  ok (record { first = a; second = b; third = c })

-- `seats.into_iter().enumerate().map(..)`
unfoldable pub deal_from : List ℕ → ℕ → List ℕ → Outcome (List (ℕ × Hand))
deal_from d i [] = ok []
deal_from d i (seat ∷ seats) = do
  hand ← hand_at d i
  rest ← deal_from d (i + 1) seats
  ok ((seat, hand) ∷ rest)

abbrev pub same_hand : Hand → Hand → Bool
same_hand a b = same a.first b.first && (same a.second b.second && same a.third b.third)

-- `hands.len() != dealt.len() || zip(..).any(seat differs)`, negated
unfoldable pub same_seats : List SeatHand → List (ℕ × Hand) → Bool
same_seats [] [] = true
same_seats (h ∷ hands) (d ∷ dealt) = (h.seat == d.0) && same_seats hands dealt
same_seats _ _ = false

-- `hand.cards.as_ref().is_some_and(|shown| shown != cards)`, negated
abbrev pub shown_matches : Option Hand → Hand → Bool
shown_matches none cards = true
shown_matches (some shown) cards = same_hand shown cards

unfoldable pub cards_match : List SeatHand → List (ℕ × Hand) → Bool
cards_match (h ∷ hands) (d ∷ dealt) = shown_matches h.cards d.1 && cards_match hands dealt
cards_match _ _ = true

abbrev pub is_hidden : SeatHand → Bool
is_hidden h = elim h.cards [ none ↦ true | some cards ↦ false ]

-- `verify` after the hands are dealt again
abbrev pub check_hands : ZjhProof → List (ℕ × Hand) → Outcome ZjhProof
check_hands p dealt = do
  guard (same_seats p.hands dealt) seats_differ
  guard (not (all is_hidden p.hands)) nothing_disclosed
  guard (cards_match p.hands dealt) cards_mismatch
  ok p

module _ (crates : Crates) (fuel : ℕ) where
  unfoldable pub deal : Reveal → Outcome (List (ℕ × Hand))
  deal r = parse_draw_id r.commitment.draw_id >>= λ (x : List ℕ × List ℕ).
      deck crates fuel r >>= λ d. deal_from d 0 x.1

  unfoldable pub verify : ZjhProof → Outcome ZjhProof
  verify p =
      guard (same p.kind (codes "zjh") && same p.reveal.commitment.game (codes "zjh")) wrong_kind
      >> (deal p.reveal >>= check_hands p)

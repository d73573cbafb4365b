-- ===== src/Deck/Deal.antt =====
-- engine/src/deck.rs: `Deck::deal` and `Deck::remaining`.
use bluffking.Prelude.{
  drop, drop-get, get-in_range, get-bound, ℕ, zero, suc, ◌+◌, ◌≤◌, ◌≡◌, refl, ◌⊎◌, inl, inr, some,
  List, [], ◌∷◌, arith, Option-cases, get_elem?, take,
}
use bluffking.Card.{Card}
use bluffking.Deck.{Deck, DeckError, exhausted, deal, remaining}

-- Deals `n` cards one after the other.
unfoldable pub deal_many : ℕ → Deck → DeckError ⊎ (List Card × Deck)
deal_many zero d = inr ([], d)
deal_many (suc n) d = elim (deal d) [
  | inl e ↦ inl e
  | inr (c, d') ↦ elim (deal_many n d') [ inl e ↦ inl e | inr (cs, d2) ↦ inr (c ∷ cs, d2) ]
]

deal-eq :
    (d : Deck) (c : Card)
    → get_elem? d.cards d.next ≡ some c
    → deal d ≡ inr (c, record d { next = d.next + 1 })
unfolding deal
deal-eq d c e = rw (e, deal) refl

-- As many cards as remain can be dealt: they are the next ones of the deck in order, no card is
-- dealt twice, and the rest remains.
pub deal_many-take :
    (n : ℕ) (d : Deck)
    → n ≤ remaining d
    → (d' : Deck) × (deal_many n d ≡ inr (take n (drop d.next d.cards), d'))
      × (d'.cards ≡ d.cards)
      × (d'.next ≡ d.next + n)
      × (remaining d' + n ≡ remaining d)
unfolding deal_many remaining take
deal_many-take zero d h = (d, refl, refl, omega arith, omega arith)
deal_many-take (suc n) d h =
    let (c, at_next) = get-in_range d.cards d.next (omega arith) in
    let (d', dealt, same, next, left) =
      deal_many-take n (record d { next = d.next + 1 }) (omega arith) in
    (
      d',
      rw (deal-eq d c at_next, deal_many) (rw dealt (rw (drop-get d.next d.cards c at_next) refl)),
      same,
      omega arith,
      omega arith,
    )

-- A deck of which every card has been dealt reports that it is exhausted.
pub deal-exhausted : (d : Deck) → remaining d ≡ 0 → deal d ≡ inl exhausted
unfolding deal remaining
deal-exhausted d h = elim (Option-cases (get_elem? d.cards d.next)) [
  | inl e ↦ rw (e, deal) refl
  | inr (c, e) ↦ absurd (omega (arith, get-bound d.cards d.next c e))
]

-- ===== src/Draw/Zjh/Verify.antt =====
-- draw-games/verifier/src/zjh.rs: the proofs that `verify` accepts.
use bluffking.Prelude.{
  ℕ, ◌≡◌, refl, sym, ap, ◌↔◌, ◌⊎◌, inl, inr, true, false, not, ◌&&◌, Option, none, some, List, [],
  ◌∷◌, arith, ◌==◌, ==_self, all,
}
use bluffking.Draw.{
  ok, ◌>>=◌, ◌>>◌, guard, same, same-eq, same_self, codes, >>=-eq-ok, >>-eq-ok, ok-injective,
  &&-eq-true, wrong_kind, seats_differ, nothing_disclosed, cards_mismatch,
}
use bluffking.Draw.Proof.{Crates}
use bluffking.Draw.Zjh.{
  Hand, SeatHand, ZjhProof, same_hand, same_seats, shown_matches, cards_match, is_hidden,
  check_hands, deal, verify,
}

-- The hands of a proof say of each seat that is dealt its cards, or nothing.
abbrev pub IsTrue : List SeatHand → List (ℕ × Hand) → Type 0
IsTrue [] [] = Unit {0}
IsTrue (h ∷ hands) (d ∷ dealt) =
    (h.seat ≡ d.0) × ((h.cards ≡ none) ⊎ (h.cards ≡ some d.1)) × IsTrue hands dealt
IsTrue _ _ = ⊥

same_hand-eq : (a b : Hand) → same_hand a b ≡ true → a ≡ b
same_hand-eq a b e =
    let (one, rest) =
      &&-eq-true (same a.first b.first) (same a.second b.second && same a.third b.third) e in
    let (two, three) = &&-eq-true (same a.second b.second) (same a.third b.third) rest in
    let first = same-eq a.first b.first one in
    let second = same-eq a.second b.second two in let third = same-eq a.third b.third three in cc

shown_matches-cases :
    (shown : Option Hand) (cards : Hand)
    → shown_matches shown cards ≡ true
    → (shown ≡ none) ⊎ (shown ≡ some cards)
shown_matches-cases none cards e = inl refl
shown_matches-cases (some hand) cards e = inr (ap some (same_hand-eq hand cards e))

checks-IsTrue :
    (hands : List SeatHand) (dealt : List (ℕ × Hand))
    → same_seats hands dealt ≡ true
    → cards_match hands dealt ≡ true
    → IsTrue hands dealt
unfolding same_seats cards_match
checks-IsTrue [] [] s c = tt
checks-IsTrue [] (d ∷ dealt) s c = cc
checks-IsTrue (h ∷ hands) [] s c = cc
checks-IsTrue (h ∷ hands) (d ∷ dealt) s c =
    let (seat, seats) = &&-eq-true (h.seat == d.0) (same_seats hands dealt) s in
    let (card, cards) = &&-eq-true (shown_matches h.cards d.1) (cards_match hands dealt) c in
    (
      ground (arith, seat),
      shown_matches-cases h.cards d.1 card,
      checks-IsTrue hands dealt seats cards,
    )

shown_matches_self :
    (shown : Option Hand) (cards : Hand)
    → (shown ≡ none) ⊎ (shown ≡ some cards)
    → shown_matches shown cards ≡ true
shown_matches_self shown cards (inl hidden) = rw hidden refl
shown_matches_self shown cards (inr told) =
    rw told (rw (same_self cards.first, same_self cards.second, same_self cards.third) refl)

IsTrue-checks :
    (hands : List SeatHand) (dealt : List (ℕ × Hand))
    → IsTrue hands dealt
    → (same_seats hands dealt ≡ true) × (cards_match hands dealt ≡ true)
unfolding same_seats cards_match
IsTrue-checks [] [] h = (refl, refl)
IsTrue-checks [] (d ∷ dealt) h = absurd h
IsTrue-checks (x ∷ hands) [] h = absurd h
IsTrue-checks (x ∷ hands) (d ∷ dealt) (seat, card, rest) =
    let (seats, cards) = IsTrue-checks hands dealt rest in
    (rw seat (rw (==_self d.0) seats), rw (shown_matches_self x.cards d.1 card) cards)

module _ (crates : Crates) (fuel : ℕ) where
  -- A proof is accepted exactly when it is one of a Zha Jin Hua hand, its reveal is dealt again, it
  -- discloses some cards, and what it says of each seat is what was dealt; the proof is returned.
  pub verify-IsTrue :
      (p q : ZjhProof)
      → (verify crates fuel p ≡ ok q) ↔ (
          (q ≡ p)
          × ((same p.kind (codes "zjh") && same p.reveal.commitment.game (codes "zjh")) ≡ true)
          × (all is_hidden p.hands ≡ false)
          × (dealt : List (ℕ × Hand)) × (deal crates fuel p.reveal ≡ ok dealt)
          × IsTrue p.hands dealt)
  unfolding verify
  verify-IsTrue p q = (
    λ e.
        let (kind, e1) =
          >>-eq-ok (same p.kind (codes "zjh") && same p.reveal.commitment.game (codes "zjh"))
            wrong_kind (deal crates fuel p.reveal >>= check_hands p) e in
        let (dealt, done, e2) = >>=-eq-ok (deal crates fuel p.reveal) (check_hands p) e1 in
        let last = guard (cards_match p.hands dealt) cards_mismatch >> ok p in
        let (seats, e3) =
          >>-eq-ok (same_seats p.hands dealt) seats_differ
            (guard (not (all is_hidden p.hands)) nothing_disclosed >> last) e2 in
        let (shown, e4) = >>-eq-ok (not (all is_hidden p.hands)) nothing_disclosed last e3 in
        let (cards, e5) = >>-eq-ok (cards_match p.hands dealt) cards_mismatch (ok p) e4 in
        (
          sym (ok-injective e5),
          kind,
          ground (arith, shown),
          dealt,
          done,
          checks-IsTrue p.hands dealt seats cards,
        ),
    λ (equal, kind, shown, dealt, done, true_hands).
        let (seats, cards) = IsTrue-checks p.hands dealt true_hands in
        rw kind (rw done (rw (seats, shown, cards) (ap ok (sym equal)))),
  )

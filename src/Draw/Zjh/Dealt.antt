-- ===== src/Draw/Zjh/Dealt.antt =====
-- draw-games/verifier/src/zjh.rs: the cards of the seats.
use bluffking.Prelude.{
  All-get, ℕ, suc, ◌+◌, ◌*◌, ◌≤◌, ◌<◌, ◌≡◌, refl, sym, ap, ◌∙◌, some, List, [], ◌∷◌, map, arith,
  length, get_elem?, All, drop, drop-get, take, get-in_range,
}
use bluffking.Draw.{ok}
use bluffking.Draw.Zjh.{Hand, hand_at, deal_from}
use bluffking.Draw.Zjh.Codes.{code_text, code-code_text}

-- All the codes that are dealt, seat after seat.
unfoldable pub dealt_codes : List (ℕ × Hand) → List (List ℕ)
dealt_codes [] = []
dealt_codes ((seat, hand) ∷ dealt) = hand.first ∷ hand.second ∷ hand.third ∷ dealt_codes dealt

abbrev pub IsIndex : ℕ → Type 0
IsIndex i = i < 52

drop-three :
    (d : List ℕ) (k a b c : ℕ)
    → get_elem? d k ≡ some a
    → get_elem? d (k + 1) ≡ some b
    → get_elem? d (k + 2) ≡ some c
    → drop k d ≡ a ∷ b ∷ c ∷ drop (k + 3) d
drop-three d k a b c ea eb ec =
    let two : k + 1 + 1 ≡ k + 2 = omega arith in
    let three : k + 2 + 1 ≡ k + 3 = omega arith in
    drop-get k d a ea
    ∙ ap (λ t. a ∷ t) (drop-get (k + 1) d b eb)
    ∙ ap (λ m. a ∷ b ∷ drop m d) two
    ∙ ap (λ t. a ∷ b ∷ t) (drop-get (k + 2) d c ec)
    ∙ ap (λ m. a ∷ b ∷ c ∷ drop m d) three

take-three :
    (n : ℕ) (a b c : ℕ) (xs : List ℕ)
    → take (3 * suc n) (a ∷ b ∷ c ∷ xs) ≡ a ∷ b ∷ c ∷ take (3 * n) xs
unfolding take
take-three n a b c xs =
    let three : 3 * suc n ≡ suc (suc (suc (3 * n))) = omega arith in
    ap (λ m. take m (a ∷ b ∷ c ∷ xs)) three

hand_at-codes :
    (d : List ℕ) (i : ℕ)
    → All IsIndex d
    → i * 3 + 2 < length d
    → (a : ℕ) × (b : ℕ) × (c : ℕ) × (get_elem? d (i * 3) ≡ some a)
      × (get_elem? d (i * 3 + 1) ≡ some b)
      × (get_elem? d (i * 3 + 2) ≡ some c)
      × (hand_at d i
          ≡ ok (record { first = code_text a; second = code_text b; third = code_text c }))
unfolding hand_at
hand_at-codes d i low room =
    let (a, ea) = get-in_range d (i * 3) (omega arith) in
    let (b, eb) = get-in_range d (i * 3 + 1) (omega arith) in
    let (c, ec) = get-in_range d (i * 3 + 2) (omega arith) in
    let ca = code-code_text a (All-get IsIndex d (i * 3) a ea low) in
    let cb = code-code_text b (All-get IsIndex d (i * 3 + 1) b eb low) in
    let c' = code-code_text c (All-get IsIndex d (i * 3 + 2) c ec low) in
    (a, b, c, ea, eb, ec, rw ea (rw ca (rw eb (rw cb (rw ec (rw c' refl))))))

-- The deal goes through the deck from the front.
pub deal_from-codes :
    (d : List ℕ) (i : ℕ) (seats : List ℕ)
    → All IsIndex d
    → (i + length seats) * 3 ≤ length d
    → (dealt : List (ℕ × Hand)) × (deal_from d i seats ≡ ok dealt)
      × (map (λ (x : ℕ × Hand). x.0) dealt ≡ seats)
      × (dealt_codes dealt ≡ map code_text (take (3 * length seats) (drop (i * 3) d)))
unfolding deal_from dealt_codes take
deal_from-codes d i [] low room = ([], refl, refl, refl)
deal_from-codes d i (seat ∷ seats) low room =
    let (a, b, c, ea, eb, ec, hand) = hand_at-codes d i low (omega arith) in
    let (rest, dealt, kept, texts) = deal_from-codes d (i + 1) seats low (omega arith) in
    let next : i * 3 + 3 ≡ (i + 1) * 3 = omega arith in
    let front : drop (i * 3) d ≡ a ∷ b ∷ c ∷ drop ((i + 1) * 3) d =
      drop-three d (i * 3) a b c ea eb ec ∙ ap (λ m. a ∷ b ∷ c ∷ drop m d) next in
    (
      (seat, record { first = code_text a; second = code_text b; third = code_text c }) ∷ rest,
      rw hand (rw dealt refl),
      ap (λ s. seat ∷ s) kept,
      ap (λ t. code_text a ∷ code_text b ∷ code_text c ∷ t) texts
          ∙ sym (
              ap (λ xs. map code_text (take (3 * suc (length seats)) xs)) front
              ∙ ap (map code_text) (take-three (length seats) a b c (drop ((i + 1) * 3) d))),
    )

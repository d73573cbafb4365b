-- ===== src/Draw/Zjh/Id.antt =====
-- draw-games/verifier/src/zjh.rs: the committed draw id and its roster.
use bluffking.Prelude.{
  ℕ, ◌+◌, ◌-◌, ◌*◌, ◌≤◌, ◌<◌, ◌≡◌, refl, sym, ap, subst, ◌∙◌, ◌↔◌, true, false, not, ◌&&◌, ◌||◌,
  some, List, [], ◌∷◌, ◌++◌, map, arith, ltb, ◌==◌, length, All, all, contains,
}
use bluffking.Prelude.{ltb→lt, lt→ltb}
use bluffking.Draw.{
  ok, ◌>>=◌, or_refuse, or_refuse-eq-ok, >>=-eq-ok, >>-eq-ok, ok-injective, &&-eq-true, bad_draw_id,
}
use bluffking.Draw.Text.{decimal, to_string, join, split, split_once, digits_value, parse_usize}
use bluffking.Draw.Text.Facts.{
  split_once-append, split_once-some, join-split, split-join, digits_value-le,
}
use bluffking.Draw.Zjh.{
  valid_seats, draw_id, is_digit, starts_with, parse_seat, parse_seats, check_roster, parse_draw_id,
}

abbrev IsSeat : ℕ → Type 0
IsSeat s = s < 10

to_string-digit : (s : ℕ) → IsSeat s → to_string s ≡ (48 + s) ∷ []
unfolding decimal
to_string-digit s h = rw (lt→ltb s 10 h) refl

-- A seat below ten is read back from the text that is written for it.
parse_seat-to_string : (s : ℕ) → IsSeat s → parse_seat (to_string s) ≡ ok s
unfolding parse_seat digits_value all
parse_seat-to_string s h = rw (to_string-digit s h) (ground arith)

-- What a text that is read as a seat is: digits without a leading zero.
parse_seat-ok :
    (text : List ℕ) {s : ℕ}
    → parse_seat text ≡ ok s
    → (0 < length text)
      × ((ltb 1 (length text) && starts_with b'0' text) ≡ false)
      × (all is_digit text ≡ true)
      × (digits_value text 0 ≡ s)
unfolding parse_seat
parse_seat-ok text {s} e =
    let none_there = length text == 0 in
    let leading = ltb 1 (length text) && starts_with b'0' text in
    let digits = all is_digit text in
    let (shape, read) =
      >>-eq-ok (not (none_there || (leading || not digits))) bad_draw_id
        (or_refuse (parse_usize text) bad_draw_id) e in
    let parsed : parse_usize text ≡ some s = or_refuse-eq-ok (parse_usize text) bad_draw_id read in
    (ground (arith, shape), ground (arith, shape), ground (arith, shape), ground (arith, parsed))

-- A text that is read as a seat below ten is the one that is written for it.
to_string-parse_seat :
    (text : List ℕ) (s : ℕ) → parse_seat text ≡ ok s → IsSeat s → text ≡ to_string s
unfolding digits_value all
to_string-parse_seat [] s e h = absurd (omega (arith, (parse_seat-ok [] e).0))
to_string-parse_seat (c ∷ []) s e h =
    let (_, _, digit, value) = parse_seat-ok (c ∷ []) e in
    let shown : c ≡ 48 + s = ground (arith, digit, value) in
    ap (λ x. x ∷ []) shown ∙ sym (to_string-digit s h)
to_string-parse_seat (c ∷ d ∷ text) s e h =
    let (_, leading, digits, value) = parse_seat-ok (c ∷ d ∷ text) e in
    let (digit, _) = &&-eq-true (is_digit c) (all is_digit (d ∷ text)) digits in
    absurd (
      ground
        (arith, leading, digit, value, digits_value-le text ((0 * 10 + (c - 48)) * 10 + (d - 48))))

parse_seats-to_string :
    (seats : List ℕ) → All IsSeat seats → parse_seats (map to_string seats) ≡ ok seats
unfolding parse_seats
parse_seats-to_string [] h = refl
parse_seats-to_string (s ∷ seats) (h, hs) =
    rw (parse_seat-to_string s h) (rw (parse_seats-to_string seats hs) refl)

to_string-parse_seats :
    (parts : List (List ℕ)) (seats : List ℕ)
    → parse_seats parts ≡ ok seats
    → All IsSeat seats
    → parts ≡ map to_string seats
unfolding parse_seats
to_string-parse_seats [] seats e h = ap (map to_string) (ok-injective e)
to_string-parse_seats (p ∷ parts) seats e h =
    let (s, one, e') =
      >>=-eq-ok (parse_seat p) (λ s. parse_seats parts >>= λ rest. ok (s ∷ rest)) e in
    let (rest, others, e'') = >>=-eq-ok (parse_seats parts) (λ rest. ok (s ∷ rest)) e' in
    let whole : s ∷ rest ≡ seats = ok-injective e'' in
    let (low, lows) = subst (All IsSeat) (sym whole) h in
    let first : p ≡ to_string s = to_string-parse_seat p s one low in
    let others' : parts ≡ map to_string rest = to_string-parse_seats parts rest others lows in
    rw (← whole) cc

valid_seats-ok :
    (seats : List ℕ)
    → valid_seats seats ≡ true
    → (2 ≤ length seats) × (all (λ s. ltb s 10) seats ≡ true)
unfolding valid_seats
valid_seats-ok seats h = (ground arith, ground arith)

all-IsSeat : (seats : List ℕ) → all (λ s. ltb s 10) seats ≡ true → All IsSeat seats
unfolding all
all-IsSeat [] h = tt
all-IsSeat (s ∷ seats) h =
    let (low, lows) = &&-eq-true (ltb s 10) (all (λ x. ltb x 10) seats) h in
    (ltb→lt s 10 low, all-IsSeat seats lows)

no_comma :
    (seats : List ℕ) → All IsSeat seats → All (λ p. contains b',' p ≡ false) (map to_string seats)
unfolding contains
no_comma [] h = tt
no_comma (s ∷ seats) (h, hs) = (rw (to_string-digit s h) (ground arith), no_comma seats hs)

split-seats :
    (seats : List ℕ)
    → 2 ≤ length seats
    → All IsSeat seats
    → split b',' (join b',' (map to_string seats)) ≡ map to_string seats
split-seats [] n h = absurd (omega arith)
split-seats (s ∷ seats) n h =
    split-join b',' (to_string s) (map to_string seats) (no_comma (s ∷ seats) h)

parse_draw_id-draw_id :
    (hand_id seats id : List ℕ)
    → draw_id hand_id seats ≡ ok id
    → parse_draw_id id ≡ ok (hand_id, seats)
unfolding draw_id parse_draw_id
parse_draw_id-draw_id hand_id seats id e =
    let text = hand_id ++ (b':' ∷ join b',' (map to_string seats)) in
    let bad = (length hand_id == 0) || (contains b':' hand_id || not (valid_seats seats)) in
    let (good, made) = >>-eq-ok (not bad) bad_draw_id (ok text) e in
    let valid : valid_seats seats ≡ true = ground (arith, good) in
    let plain : contains b':' hand_id ≡ false = ground (arith, good) in
    let filled : (length hand_id == 0) ≡ false = ground (arith, good) in
    let (two, low) = valid_seats-ok seats valid in
    let are_seats = all-IsSeat seats low in
    rw (← ok-injective made) (
      rw (split_once-append b':' hand_id (join b',' (map to_string seats)) plain) (
        rw (split-seats seats two are_seats)
          (rw (parse_seats-to_string seats are_seats) (rw (filled, valid) refl))))

draw_id-parse_draw_id :
    (hand_id seats id : List ℕ)
    → parse_draw_id id ≡ ok (hand_id, seats)
    → draw_id hand_id seats ≡ ok id
unfolding draw_id parse_draw_id
draw_id-parse_draw_id hand_id seats id e =
    let (x, cut, e') =
      >>=-eq-ok (or_refuse (split_once b':' id) bad_draw_id)
        (λ (x : List ℕ × List ℕ). parse_seats (split b',' x.1) >>= check_roster x.0) e in
    let (plain, whole) =
      split_once-some b':' id x (or_refuse-eq-ok (split_once b':' id) bad_draw_id cut) in
    let (roster, read, e'') = >>=-eq-ok (parse_seats (split b',' x.1)) (check_roster x.0) e' in
    let (good, made) =
      >>-eq-ok (not ((length x.0 == 0) || not (valid_seats roster))) bad_draw_id (ok (x.0, roster))
        e'' in
    let pair : ◌≡◌ {A = List ℕ × List ℕ} (x.0, roster) (hand_id, seats) = ok-injective made in
    let hand : x.0 ≡ hand_id = ap (λ (y : List ℕ × List ℕ). y.0) pair in
    let table : roster ≡ seats = ap (λ (y : List ℕ × List ℕ). y.1) pair in
    let valid : valid_seats roster ≡ true = ground (arith, good) in
    let filled : (length x.0 == 0) ≡ false = ground (arith, good) in
    let (two, low) = valid_seats-ok roster valid in
    let parts : split b',' x.1 ≡ map to_string roster =
      to_string-parse_seats (split b',' x.1) roster read (all-IsSeat roster low) in
    let tail : join b',' (map to_string roster) ≡ x.1 =
      ap (join b',') (sym parts) ∙ join-split b',' x.1 in
    rw (← hand) (
      rw (← table)
        (rw (filled, plain, valid) (ap (λ t. ok (x.0 ++ (b':' ∷ t))) tail ∙ ap ok (sym whole))))

-- A draw id is made for a hand and a roster exactly when it is read as them, so that each roster of
-- a hand has one draw id.
pub draw_id-iff_parsed :
    (hand_id seats id : List ℕ)
    → (draw_id hand_id seats ≡ ok id) ↔ (parse_draw_id id ≡ ok (hand_id, seats))
draw_id-iff_parsed hand_id seats id =
    (parse_draw_id-draw_id hand_id seats id, draw_id-parse_draw_id hand_id seats id)

-- The roster of a draw id that is read is a valid one.
pub parse_draw_id-valid_seats :
    (hand_id seats id : List ℕ) → parse_draw_id id ≡ ok (hand_id, seats) → valid_seats seats ≡ true
unfolding draw_id
parse_draw_id-valid_seats hand_id seats id e =
    let text = hand_id ++ (b':' ∷ join b',' (map to_string seats)) in
    let bad = (length hand_id == 0) || (contains b':' hand_id || not (valid_seats seats)) in
    let made = draw_id-parse_draw_id hand_id seats id e in
    let good = (>>-eq-ok (not bad) bad_draw_id (ok text) made).0 in ground (arith, good)

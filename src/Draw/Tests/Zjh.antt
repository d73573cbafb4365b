-- ===== src/Draw/Tests/Zjh.antt =====
-- draw-games/verifier/src/zjh.rs: examples of the theorems, and runs.
use bluffking.Prelude.{
  ℕ, ◌≤◌, ◌≡◌, refl, ◌↔◌, true, false, ◌&&◌, none, List, [], ◌∷◌, map, arith, all, count,
}
use bluffking.Draw.{err, ok, same, codes, bad_draw_id}
use bluffking.Draw.Text.{split, split_once, digits_value}
use bluffking.Draw.Proof.{
  Reveal, Entropy, entropy, commit, known_game, shared_game, sha256_fields, seed_bytes, framed,
  to_be_bytes, client_bytes, outcome_stream,
}
use bluffking.Draw.Zjh.{
  Hand, ZjhProof, is_hidden, valid_seats, ascending, draw_id, parse_draw_id, parse_seat,
  parse_seats, deal, verify,
}
use bluffking.Draw.Zjh.Id.{draw_id-iff_parsed}
use bluffking.Draw.Zjh.Dealt.{dealt_codes}
use bluffking.Draw.Zjh.Distinct.{deal-count}
use bluffking.Draw.Zjh.Verify.{IsTrue, verify-IsTrue}
use bluffking.Draw.Tests.Toy.{revealed, seed, toy, toy-HasWords}

abbrev hand : Reveal
hand = revealed (codes "zjh") (codes "h:0,2,5") []

abbrev stream : Entropy
stream = outcome_stream toy (codes "zjh") (codes "h:0,2,5") seed []

abbrev roster : List ℕ
roster = 0 ∷ 2 ∷ 5 ∷ []

hand-opens : entropy toy hand ≡ ok stream
unfolding entropy commit known_game seed_bytes all client_bytes shared_game sha256_fields framed
    to_be_bytes
hand-opens = refl

hand-roster : parse_draw_id (codes "h:0,2,5") ≡ ok (codes "h", roster)
unfolding parse_draw_id split_once parse_seats parse_seat digits_value split all valid_seats
    ascending
hand-roster = refl

draw_id-iff_parsed_example :
    (draw_id (codes "h") roster ≡ ok (codes "h:0,2,5"))
    ↔ (parse_draw_id (codes "h:0,2,5") ≡ ok (codes "h", roster))
draw_id-iff_parsed_example = draw_id-iff_parsed (codes "h") roster (codes "h:0,2,5")

deal-count_example :
    (dealt : List (ℕ × Hand)) × (deal toy 8 hand ≡ ok dealt)
    × (map (λ (x : ℕ × Hand). x.0) dealt ≡ roster)
    × ((c : List ℕ) → count (same c) (dealt_codes dealt) ≤ 1)
deal-count_example =
    deal-count toy 8 (omega arith) hand (codes "h") roster hand-opens (toy-HasWords stream.seed)
      refl hand-roster

abbrev shown : ZjhProof
shown = record { kind = codes "zjh"; reveal = hand; hands = record { seat = 0; cards = none } ∷ [] }

verify-IsTrue_example : (verify toy 8 shown ≡ ok shown) ↔ (
    (shown ≡ shown)
    × ((same shown.kind (codes "zjh") && same shown.reveal.commitment.game (codes "zjh")) ≡ true)
    × (all is_hidden shown.hands ≡ false)
    × (dealt : List (ℕ × Hand)) × (deal toy 8 shown.reveal ≡ ok dealt)
    × IsTrue shown.hands dealt)
verify-IsTrue_example = verify-IsTrue toy 8 shown shown

-- A leading zero is not canonical.
leading_zero : parse_draw_id (codes "h:0,02") ≡ err bad_draw_id
unfolding parse_draw_id split_once parse_seats parse_seat digits_value split all
leading_zero = refl

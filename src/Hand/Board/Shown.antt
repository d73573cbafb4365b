-- ===== src/Hand/Board/Shown.antt =====
-- engine/src/game/streets.rs: closing a street of a blind hand shows no card.
use bluffking.Prelude.{
  ℕ, zero, suc, ◌+◌, ◌%◌, ◌≡◌, refl, sym, ap, subst, ◌∙◌, inl, inr, true, false, ◌&&◌, arith, leb,
  if◌then◌else◌, Bool-cases, Option-cases, length, get_elem?,
}
use bluffking.Action.{Result, ok, ok-injective, >>=-eq-ok, ◌>>=◌}
use bluffking.Card.{Street}
use bluffking.Hand.State.{
  Hand, HandMode, blind_mode, plaintext_mode, is_blind_mode, round_is_done, set_done, contenders,
  current_street,
}
use bluffking.Hand.Street.{
  absorb_round, next_street, plaintext, is_plaintext, open_round, first_active_after, reveal_street,
  begin_street, close_streets,
}
use bluffking.Hand.Snapshot.{snapshot, snapshot-same}
use bluffking.Hand.Board.{all_revealed}

-- Two hands of one mode show the same cards.
pub record SameCards (h h' : Hand) : Type 0 where
  pub same_mode : h'.mode ≡ h.mode
  pub same_board : h'.board ≡ h.board
  pub same_second : h'.second_board ≡ h.second_board
  pub same_shown : all_revealed h'.seats ≡ all_revealed h.seats

pub SameCards-trans : {h h' h'' : Hand} → SameCards h h' → SameCards h' h'' → SameCards h h''
SameCards-trans first later = record {
  same_mode = later.same_mode ∙ first.same_mode;
  same_board = later.same_board ∙ first.same_board;
  same_second = later.same_second ∙ first.same_second;
  same_shown = later.same_shown ∙ first.same_shown;
}

pub SameCards-refl : (h : Hand) → SameCards h h
SameCards-refl h = record {
  same_mode = refl;
  same_board = refl;
  same_second = refl;
  same_shown = refl;
}

pub is_blind_mode-eq : (mode : HandMode) → is_blind_mode mode ≡ true → mode ≡ blind_mode
is_blind_mode-eq plaintext_mode e = cc
is_blind_mode-eq blind_mode e = refl

pub absorb_round-SameCards : (h : Hand) → SameCards h (absorb_round h)
unfolding absorb_round
absorb_round-SameCards h = elim (Option-cases h.betting_round) [
  | inl missing ↦ simp (absorb_round, missing) (SameCards-refl h)
  | inr (r, there) ↦
      simp (absorb_round, there)
        (record { same_mode = refl; same_board = refl; same_second = refl; same_shown = refl })
]

set_done-SameCards : (h h' : Hand) → snapshot (set_done h) ≡ ok h' → SameCards h h'
unfolding set_done
set_done-SameCards h h' e =
    subst (SameCards h) (snapshot-same (set_done h) h' e)
      (record { same_mode = refl; same_board = refl; same_second = refl; same_shown = refl })

open_round-SameCards :
    (street : Street) (h h' : Hand) → open_round street h ≡ ok h' → SameCards h h'
unfolding open_round
open_round-SameCards street h h' e =
    let n = length h.seats in
    let first = first_active_after h.seats ((h.dealer_idx % n + 1) % n) in
    elim (Option-cases (get_elem? h.seats first)) [
      | inl missing ↦ absurd (ground (arith, rw (open_round, missing) at e))
      | inr (s, found) ↦
          let e' = rw (open_round, found) at e in
          subst (SameCards h) (ok-injective e')
            (record { same_mode = refl; same_board = refl; same_second = refl; same_shown = refl })
    ]

reveal_street-SameCards :
    (street : Street) (h h' : Hand)
    → h.mode ≡ blind_mode
    → reveal_street street h ≡ ok h'
    → SameCards h h'
unfolding reveal_street
reveal_street-SameCards street h h' blind e =
    subst (SameCards h) (ok-injective (simp (reveal_street, blind) at e))
      (record { same_mode = sym blind; same_board = refl; same_second = refl; same_shown = refl })

-- The hand goes on, once the street's pots are in.
abbrev go_on : ℕ → Hand → Result Hand
go_on fuel opened =
    let rest = close_streets fuel opened in
    if is_plaintext opened && round_is_done opened then rest else snapshot opened

go_on-blind :
    (fuel : ℕ) (opened h' : Hand)
    → is_plaintext opened ≡ false
    → go_on fuel opened ≡ ok h'
    → opened ≡ h'
go_on-blind fuel opened h' blind e = snapshot-same opened h' (simp blind at e)

is_plaintext-false : (h : Hand) → h.mode ≡ blind_mode → is_plaintext h ≡ false
is_plaintext-false h blind = ap plaintext blind

begin_street-SameCards :
    (fuel : ℕ) (street : Street) (h h' : Hand)
    → h.mode ≡ blind_mode
    → (begin_street street h >>= go_on fuel) ≡ ok h'
    → SameCards h h'
begin_street-SameCards fuel street h h' blind e =
    let (opened, began, went) = >>=-eq-ok (begin_street street h) (go_on fuel) e in
    let (shown, first_part, o) = >>=-eq-ok (reveal_street street h) (open_round street) began in
    let first = reveal_street-SameCards street h shown blind first_part in
    let both = SameCards-trans first (open_round-SameCards street shown opened o) in
    let mode : opened.mode ≡ blind_mode = both.same_mode ∙ blind in
    let is_blind = is_plaintext-false opened mode in
    subst (SameCards h) (go_on-blind fuel opened h' is_blind went) both

-- Closing a street of a blind hand shows no card.
pub close-SameCards :
    (fuel : ℕ) (h h' : Hand) → h.mode ≡ blind_mode → close_streets fuel h ≡ ok h' → SameCards h h'
unfolding close_streets
close-SameCards zero h h' blind e = cc
close-SameCards (suc fuel) h h' blind e =
    let h0 = absorb_round h in
    let absorbed = absorb_round-SameCards h in
    let blind0 : h0.mode ≡ blind_mode = absorbed.same_mode ∙ blind in
    SameCards-trans absorbed (elim (Bool-cases (leb (contenders h0) 1)) [
      | inl alone ↦ set_done-SameCards h0 h' (rw alone at e)
      | inr many ↦ elim (Option-cases (next_street (current_street h0))) [
        | inl last ↦ set_done-SameCards h0 h' (rw (many, last) at e)
        | inr (street, next) ↦
            begin_street-SameCards fuel street h0 h' blind0 (rw (many, next) at e)
      ]
    ])

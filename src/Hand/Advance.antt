-- ===== src/Hand/Advance.antt =====
-- engine/src/game/streets.rs: where closing a street leads to.
use mathlib.Core.Option.{some-injective}
use bluffking.Prelude.{
  ℕ, zero, suc, ◌+◌, ◌%◌, ◌≤◌, ◌<◌, ◌≡◌, refl, sym, ap, subst, ◌∙◌, ◌⊎◌, inl, inr, true, false,
  ◌&&◌, none, some, arith, leb, if◌then◌else◌, Bool-cases, Option-cases, length, get_elem?, All,
}
use bluffking.Action.{>>=-eq-ok, Result, ok, ok-injective, ◌>>=◌}
use bluffking.Card.{Street, preflop, flop, turn, river}
use bluffking.Settle.HandTotal.{HasStack}
use bluffking.Hand.Snapshot.{snapshot, snapshot-same, snapshot-total, actor_read-none}
use bluffking.Hand.State.{
  Hand, betting, HandMode, plaintext_mode, blind_mode, is_done, current_street, set_done,
  round_is_done, contenders,
}
use bluffking.Hand.Street.{
  reveal_street, open_round, first_active_after, absorb_round, next_street, begin_street, plaintext,
  is_plaintext, close_streets, close_street_and_advance,
}
use bluffking.Hand.Opened.{Kept, Exhausted, begin_street-total}

-- The streets after one.
abbrev pub streets_left : Street → ℕ
streets_left preflop = 3
streets_left flop = 2
streets_left turn = 1
streets_left river = 0

next_street-left : (s t : Street) → next_street s ≡ some t → streets_left t + 1 ≡ streets_left s
next_street-left preflop t e = subst (λ x. streets_left x + 1 ≡ 3) (some-injective flop t e) refl
next_street-left flop t e = subst (λ x. streets_left x + 1 ≡ 2) (some-injective turn t e) refl
next_street-left turn t e = subst (λ x. streets_left x + 1 ≡ 1) (some-injective river t e) refl
next_street-left river t e = cc

absorb_round-Kept :
    (h : Hand) → Kept h (absorb_round h) × (current_street (absorb_round h) ≡ current_street h)
unfolding absorb_round current_street
absorb_round-Kept h = elim (Option-cases h.betting_round) [
  | inl missing ↦ simp (absorb_round, missing) ((refl, refl), refl)
  | inr (r, there) ↦ simp (absorb_round, there) ((refl, refl), refl)
]

-- The hand is finished and has no round, or a later street is opened: one with a bet to make, or one whose board a
-- blind hand waits for.
abbrev pub Advanced : Street → Hand → Type 0
Advanced s h =
    ((is_done h ≡ true) × (h.betting_round ≡ none))
    ⊎ ((street : Street) × (h.phase ≡ betting street)
        × (streets_left street < streets_left s)
        × ((round_is_done h ≡ false) ⊎ (h.mode ≡ blind_mode)))

-- What closing gives.
abbrev pub Closes : Hand → Result Hand → Type 0
Closes h out = Exhausted h out ⊎ ((h' : Hand) × (out ≡ ok h') × Advanced (current_street h) h')

abbrev go_on : ℕ → Hand → Result Hand
go_on fuel opened =
    let rest = close_streets fuel opened in
    if is_plaintext opened && round_is_done opened then rest else snapshot opened

plaintext-eq : (m : HandMode) → plaintext m ≡ false → m ≡ blind_mode
plaintext-eq plaintext_mode e = cc
plaintext-eq blind_mode e = refl

still_open :
    (h : Hand)
    → (is_plaintext h && round_is_done h) ≡ false
    → (round_is_done h ≡ false) ⊎ (h.mode ≡ blind_mode)
still_open h e = elim (Bool-cases (is_plaintext h)) [
  | inl plain ↦ inl (rw plain at e)
  | inr blind ↦ inr (plaintext-eq h.mode blind)
]

pub current_street-betting : (h : Hand) (s : Street) → h.phase ≡ betting s → current_street h ≡ s
unfolding current_street
current_street-betting h s e = simp (current_street, e) refl

pub absorb_round-none : (h : Hand) → (absorb_round h).betting_round ≡ none
unfolding absorb_round
absorb_round-none h = elim (Option-cases h.betting_round) [
  | inl missing ↦ simp (absorb_round, missing) refl
  | inr (r, there) ↦ simp (absorb_round, there) refl
]

set_done-Closes :
    (h : Hand) → All HasStack h.seats → Closes h (snapshot (set_done (absorb_round h)))
unfolding set_done
set_done-Closes h have =
    let over = set_done (absorb_round h) in
    let have0 = subst (All HasStack) (sym (absorb_round-Kept h).0.0) have in
    let known = actor_read-none over (absorb_round-none h) in
    inr (over, snapshot-total over have0 known, inl (refl, absorb_round-none h))

-- What a later hand's closing gives is what the first one's gives.
later-Closes :
    (h opened : Hand) (street : Street) (out : Result Hand)
    → opened.mode ≡ h.mode
    → opened.phase ≡ betting street
    → streets_left street < streets_left (current_street h)
    → Closes opened out
    → Closes h out
later-Closes h opened street out mode phase later (inl (failed, plain)) =
    inl (failed, sym mode ∙ plain)
later-Closes h opened street out mode phase later (inr (h', gives, inl over)) =
    inr (h', gives, inl over)
later-Closes h opened street out mode phase later
      (inr (h', gives, inr (s, at, further, open_bet))) =
    let now = ap streets_left (current_street-betting opened street phase) in
    inr (h', gives, inr (s, at, omega (arith, now, later, further), open_bet))

close-total :
    (fuel : ℕ) (h : Hand)
    → 1 ≤ length h.seats
    → All HasStack h.seats
    → streets_left (current_street h) < fuel
    → Closes h (close_streets fuel h)
unfolding close_streets
close-total zero h some_seat have enough = absurd (omega (arith, enough))
close-total (suc fuel) h some_seat have enough =
    let h0 = absorb_round h in
    let (kept, same) = absorb_round-Kept h in
    let some_seat0 = subst (λ x. 1 ≤ length x) (sym kept.0) some_seat in
    elim (Bool-cases (leb (contenders h0) 1)) [
      | inl alone ↦ rw alone (set_done-Closes h have)
      | inr many ↦ elim (Option-cases (next_street (current_street h0))) [
        | inl last ↦ rw (many, last) (set_done-Closes h have)
        | inr (street, next) ↦
            let left = next_street-left (current_street h0) street next in
            let left0 = ap streets_left same in
            let later : streets_left street < streets_left (current_street h) =
              omega (arith, left, left0) in
            let starts : close_streets (suc fuel) h ≡ (begin_street street h0 >>= go_on fuel) =
              rw (many, next) refl in
            elim (begin_street-total street h0 some_seat0) [
              | inl (failed, plain) ↦
                  inl (starts ∙ ap (λ x. x >>= go_on fuel) failed, sym kept.1 ∙ plain)
              | inr (opened, began, phase, known, kept') ↦
                  let runs = starts ∙ ap (λ x. x >>= go_on fuel) began in
                  let have' = subst (All HasStack) (sym (kept'.0 ∙ kept.0)) have in
                  elim (Bool-cases (is_plaintext opened && round_is_done opened)) [
                    | inl again ↦
                        let now = ap streets_left (current_street-betting opened street phase) in
                        let seated = subst (λ x. 1 ≤ length x) (sym kept'.0) some_seat0 in
                        let rest =
                          close-total fuel opened seated have'
                            (omega (arith, now, later, enough)) in
                        let same_mode = kept'.1 ∙ kept.1 in
                        subst (Closes h) (sym (runs ∙ simp again refl)) (
                          later-Closes h opened street (close_streets fuel opened) same_mode phase
                            later rest)
                    | inr stops ↦ inr (
                      opened,
                      runs ∙ simp stops (snapshot-total opened have' known),
                      inr (street, phase, later, still_open opened stops),
                    )
                  ]
            ]
      ]
    ]

streets_left-bound : (s : Street) → streets_left s < 4
streets_left-bound preflop = omega arith
streets_left-bound flop = omega arith
streets_left-bound turn = omega arith
streets_left-bound river = omega arith

-- Closing the street of a hand with a seat, whose stacks are not above those it started with, ends
-- without a panic: the hand is finished, or on a later street, where a bet is to be made or where a
-- blind hand waits for the board. Only a plaintext hand can fail, with `HandFinished`.
pub close-Advances :
    (h : Hand) → 1 ≤ length h.seats → All HasStack h.seats → Closes h (close_street_and_advance h)
close-Advances h some_seat have =
    close-total 4 h some_seat have (streets_left-bound (current_street h))

begin_street-phase :
    (street : Street) (h opened : Hand)
    → begin_street street h ≡ ok opened
    → opened.phase ≡ betting street
unfolding open_round
begin_street-phase street h opened e =
    let (shown, reveals, opens) = >>=-eq-ok (reveal_street street h) (open_round street) e in
    let n = length shown.seats in
    let first = first_active_after shown.seats ((shown.dealer_idx % n + 1) % n) in
    elim (Option-cases (get_elem? shown.seats first)) [
      | inl missing ↦ absurd (ground (arith, rw (open_round, missing) at opens))
      | inr (s, there) ↦
          sym (ap (λ (x : Hand). x.phase) (ok-injective (simp (open_round, there) at opens)))
    ]

later-Advanced :
    (h opened h' : Hand) (street : Street)
    → opened.phase ≡ betting street
    → streets_left street < streets_left (current_street h)
    → Advanced (current_street opened) h'
    → Advanced (current_street h) h'
later-Advanced h opened h' street phase later (inl over) = inl over
later-Advanced h opened h' street phase later (inr (s, at, further, open_bet)) =
    let now = ap streets_left (current_street-betting opened street phase) in
    inr (s, at, omega (arith, now, later, further), open_bet)

set_done-Advanced :
    (h h' : Hand) → snapshot (set_done (absorb_round h)) ≡ ok h' → Advanced (current_street h) h'
unfolding set_done
set_done-Advanced h h' e =
    subst (Advanced (current_street h)) (snapshot-same (set_done (absorb_round h)) h' e)
      (inl (refl, absorb_round-none h))

-- Where closing a street leads to when it gives a hand.
close_streets-Advanced :
    (fuel : ℕ) (h h' : Hand) → close_streets fuel h ≡ ok h' → Advanced (current_street h) h'
unfolding close_streets
close_streets-Advanced zero h h' e = cc
close_streets-Advanced (suc fuel) h h' e =
    let h0 = absorb_round h in
    elim (Bool-cases (leb (contenders h0) 1)) [
      | inl alone ↦ set_done-Advanced h h' (rw alone at e)
      | inr many ↦ elim (Option-cases (next_street (current_street h0))) [
        | inl last ↦ set_done-Advanced h h' (rw (many, last) at e)
        | inr (street, next) ↦
            let left = next_street-left (current_street h0) street next in
            let left0 = ap streets_left (absorb_round-Kept h).1 in
            let later : streets_left street < streets_left (current_street h) =
              omega (arith, left, left0) in
            let (opened, begins, goes) =
              >>=-eq-ok (begin_street street h0) (go_on fuel) (rw (many, next) at e) in
            let phase = begin_street-phase street h0 opened begins in
            elim (Bool-cases (is_plaintext opened && round_is_done opened)) [
              | inl again ↦
                  later-Advanced h opened h' street phase later
                    (close_streets-Advanced fuel opened h' (simp again at goes))
              | inr stops ↦
                  subst (Advanced (current_street h)) (snapshot-same opened h' (simp stops at goes))
                    (inr (street, phase, later, still_open opened stops))
            ]
      ]
    ]

pub closed-Advanced :
    (h h' : Hand) → close_street_and_advance h ≡ ok h' → Advanced (current_street h) h'
closed-Advanced h h' e = close_streets-Advanced 4 h h' e
